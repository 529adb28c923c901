-- ===== src/Merkle/Encode/Injective.antt =====
-- What src/kvsrv/merkle.go writes into a hash can be read back: equal bytes come from equal values.
use Prim.Native.Char.{code}
use text.Mathlib.TextEquality.{Char-path}
use dynamo_kvsrv_pbs.Prelude.{
  ℕ, zero, suc, ◌*◌, ◌/◌, ◌%◌, ◌^◌, ◌<◌, ◌≡◌, refl, sym, ◌∙◌, ap, String, List, [], ◌∷◌, ◌++◌, map,
  length, append_injective, Bytes, arith, All,
}
use mathlib.Core.List.{append_assoc}
use native.Mathlib.Numerals.{unary_clauses}
use dynamo_kvsrv_pbs.VClock.{VcEntry, to_vc_entries}
use dynamo_kvsrv_pbs.Rpc.Object.{Object}
use dynamo_kvsrv_pbs.Merkle.Encode.{
  codes, little_endian, write_uint64, write_bytes, write_string, write_entries, write_object,
}
use dynamo_kvsrv_pbs.Merkle.Encode.Lengths.{length-little_endian}

-- What `write` writes of a value that fits determines the value's view, whatever is written behind it.
abbrev pub IsReadable : {A B : Type 0} → (A → Type 0) → (A → Bytes) → (A → B) → Type 0
IsReadable {A} Fits write view =
    (x y : A) (u v : Bytes)
    → Fits x
    → Fits y
    → write x ++ u ≡ write y ++ v
    → (view x ≡ view y) × (u ≡ v)

-- A uint64, and a length that is written as one.
abbrev pub IsUint64 : ℕ → Type 0
IsUint64 x = x < 256 ^ 8

power_suc : (n : ℕ) → 256 ^ suc n ≡ 256 ^ n * 256
power_suc n = simp unary_clauses (omega arith)

little_endian_injective :
    (n x y : ℕ) → x < 256 ^ n → y < 256 ^ n → little_endian n x ≡ little_endian n y → x ≡ y
unfolding little_endian
little_endian_injective zero x y h k e = omega (arith, h, k)
little_endian_injective (suc n) x y h k e =
    let low : x % 256 ≡ y % 256 = cc e in
    let rest : little_endian n (x / 256) ≡ little_endian n (y / 256) = cc e in
    let high =
      little_endian_injective n (x / 256) (y / 256) (omega (arith, h, power_suc n))
        (omega (arith, k, power_suc n)) rest in
    omega (arith, low, high)

pub write_uint64-IsReadable : IsReadable IsUint64 write_uint64 (λ x. x)
unfolding write_uint64
write_uint64-IsReadable x y u v h k e =
    let same : length (little_endian 8 x) ≡ length (little_endian 8 y) =
      omega (arith, length-little_endian 8 x, length-little_endian 8 y) in
    let p = append_injective (little_endian 8 x) (little_endian 8 y) u v same e in
    (little_endian_injective 8 x y h k p.0, p.1)

module _ {A B C : Type 0} (F G : A → Type 0) (f g : A → Bytes) (view_f : A → B)
    (view_g : A → C) where
  -- What is written in sequence is read in sequence.
  pub seq-IsReadable :
      IsReadable F f view_f
      → IsReadable G g view_g
      → IsReadable {B = B × C} (λ x. F x × G x) (λ x. f x ++ g x) (λ x. (view_f x, view_g x))
  seq-IsReadable rf rg x y u v h k e =
      let p =
        rf x y (g x ++ u) (g y ++ v) h.0 k.0
          (sym (append_assoc (f x) (g x) u) ∙ e ∙ append_assoc (f y) (g y) v) in
      let q = rg x y u v h.1 k.1 p.1 in (cc (p.0, q.0), q.1)

module _ {A B : Type 0} (F : A → Type 0) (write : A → Bytes) (view : A → B)
    (r : IsReadable F write view) (all : List A → Bytes) (all-nil : all [] ≡ [])
    (all-cons : (x : A) (xs : List A) → all (x ∷ xs) ≡ write x ++ all xs) where
  -- One after the other, where the number is known.
  pub list-IsReadable :
      (xs ys : List A) (u v : Bytes)
      → length xs ≡ length ys
      → All F xs
      → All F ys
      → all xs ++ u ≡ all ys ++ v
      → (map view xs ≡ map view ys) × (u ≡ v)
  list-IsReadable [] [] u v n h k e = (refl, rw all-nil at e)
  list-IsReadable [] (y ∷ ys) u v n h k e = absurd (omega (arith, n))
  list-IsReadable (x ∷ xs) [] u v n h k e = absurd (omega (arith, n))
  list-IsReadable (x ∷ xs) (y ∷ ys) u v n h k e =
      let e' : write x ++ (all xs ++ u) ≡ write y ++ (all ys ++ v) =
        sym (append_assoc (write x) (all xs) u)
        ∙ ap (λ q. q ++ u) (sym (all-cons x xs))
        ∙ e
        ∙ ap (λ q. q ++ v) (all-cons y ys)
        ∙ append_assoc (write y) (all ys) v in
      let p = r x y (all xs ++ u) (all ys ++ v) h.0 k.0 e' in
      let q = list-IsReadable xs ys u v (omega (arith, n)) h.1 k.1 p.1 in (cc (p.0, q.0), q.1)

codes_injective : (s t : String) → codes s ≡ codes t → s ≡ t
codes_injective String.[] String.[] e = refl
codes_injective String.[] (String.◌∷◌ d t) e = absurd (cc e)
codes_injective (String.◌∷◌ c s) String.[] e = absurd (cc e)
codes_injective (String.◌∷◌ c s) (String.◌∷◌ d t) e =
    let first : code c ≡ code d = cc e in
    let rest : codes s ≡ codes t = cc e in cc (Char-path c d first, codes_injective s t rest)

write_bytes-IsReadable : IsReadable (λ b. IsUint64 (length b)) write_bytes (λ b. b)
unfolding write_bytes
write_bytes-IsReadable x y u v h k e =
    let p = write_uint64-IsReadable (length x) (length y) (x ++ u) (y ++ v) h k (
      sym (append_assoc (write_uint64 (length x)) x u)
      ∙ e
      ∙ append_assoc (write_uint64 (length y)) y v) in
    append_injective x y u v p.0 p.1

-- The lengths and numbers that are written fit in a uint64.
abbrev pub IsFitString : String → Type 0
IsFitString s = IsUint64 (length (codes s))

pub write_string-IsReadable : IsReadable IsFitString write_string (λ s. s)
unfolding write_string
write_string-IsReadable x y u v h k e =
    let p = write_bytes-IsReadable (codes x) (codes y) u v h k e in (codes_injective x y p.0, p.1)

abbrev IsFitEntry : VcEntry → Type 0
IsFitEntry entry = IsFitString entry.0 × IsUint64 entry.1

write_entry-IsReadable :
    IsReadable {A = VcEntry} {B = VcEntry} IsFitEntry
      (λ e. write_string e.0 ++ write_uint64 e.1)
      (λ e. e)
write_entry-IsReadable =
    seq-IsReadable (λ e. IsFitString e.0) (λ e. IsUint64 e.1) (λ e. write_string e.0)
      (λ e. write_uint64 e.1) (λ e. e.0) (λ e. e.1) (λ x y. write_string-IsReadable x.0 y.0)
      (λ x y. write_uint64-IsReadable x.1 y.1)

map_id : {A : Type 0} (xs : List A) → map (λ x. x) xs ≡ xs
map_id [] = refl
map_id (x ∷ xs) = ap (x ∷◌) (map_id xs)

write_entries-IsReadable :
    (xs ys : List VcEntry) (u v : Bytes)
    → length xs ≡ length ys
    → All IsFitEntry xs
    → All IsFitEntry ys
    → write_entries xs ++ u ≡ write_entries ys ++ v
    → (xs ≡ ys) × (u ≡ v)
unfolding write_entries
write_entries-IsReadable xs ys u v n h k e =
    let p =
      list-IsReadable IsFitEntry (λ e. write_string e.0 ++ write_uint64 e.1) (λ e. e)
        write_entry-IsReadable write_entries refl (λ x xs. refl) xs ys u v n h k e in
    (sym (map_id xs) ∙ p.0 ∙ map_id ys, p.1)

-- What is written of an object: its value, its timestamp and the entries of its clock in order.
abbrev pub ObjectView : Type 0
ObjectView = String × ℕ × List VcEntry

abbrev pub view_object : Object → ObjectView
view_object obj = (obj.value, obj.context.timestamp, to_vc_entries obj.context.vc)

abbrev pub IsFitObject : Object → Type 0
IsFitObject obj =
    IsFitString obj.value
    × IsUint64 obj.context.timestamp
    × IsUint64 (length (to_vc_entries obj.context.vc))
    × All IsFitEntry (to_vc_entries obj.context.vc)

pub write_object-IsReadable : IsReadable IsFitObject write_object view_object
unfolding write_object
write_object-IsReadable x y u v h k e =
    let xs = to_vc_entries x.context.vc in
    let ys = to_vc_entries y.context.vc in
    let head : Object → Bytes = λ o.
      write_string o.value
      ++ write_uint64 o.context.timestamp
      ++ write_uint64 (length (to_vc_entries o.context.vc)) in
    let p =
      seq-IsReadable _ _ (λ (o : Object). write_string o.value ++ write_uint64 o.context.timestamp)
        (λ o. write_uint64 (length (to_vc_entries o.context.vc)))
        (λ o. (o.value, o.context.timestamp)) (λ o. length (to_vc_entries o.context.vc))
        (seq-IsReadable (λ o. IsFitString o.value) (λ o. IsUint64 o.context.timestamp)
          (λ o. write_string o.value) (λ o. write_uint64 o.context.timestamp) (λ o. o.value)
          (λ o. o.context.timestamp) (λ a b. write_string-IsReadable a.value b.value)
          (λ a b. write_uint64-IsReadable a.context.timestamp b.context.timestamp))
        (λ a b.
          write_uint64-IsReadable (length (to_vc_entries a.context.vc))
            (length (to_vc_entries b.context.vc)))
        x y (write_entries xs ++ u) (write_entries ys ++ v) ((h.0, h.1), h.2) ((k.0, k.1), k.2)
        (sym (append_assoc (head x) (write_entries xs) u)
          ∙ e
          ∙ append_assoc (head y) (write_entries ys) v) in
    let values = ap (λ q. q.0.0) p.0 in
    let times = ap (λ q. q.0.1) p.0 in
    let counts = ap (λ q. q.1) p.0 in
    let q = write_entries-IsReadable xs ys u v counts h.3 k.3 p.1 in (cc (values, times, q.0), q.1)
