-- ===== src/Server/ReadRepair/Convergence.antt =====
-- What a read-repair job of src/kvsrv/readrepair.go sends, and to whom.
use dynamo_kvsrv_pbs.Prelude.{
  ◌≡◌, ◌⊎◌, ◌∙◌, sym, String, Bool, true, false, not, ◌&&◌, ◌||◌, List, [], ◌∷◌, ◌++◌, arith,
  if◌then◌else◌, Bool-cases, inl, inr, All, All-append, All-mono, any, contains, string_eq,
}
use mathlib.Core.Path.{subst}
use mathlib.Core.List.{append_assoc, append-nil}
use dynamo_kvsrv_pbs.Rpc.Context
use dynamo_kvsrv_pbs.Rpc.Object.{Object, add_new, is_equal}
use dynamo_kvsrv_pbs.Rpc.Object.Seen.{seen_by, seen_in, seen_in-add_new, seen_in-add_new_incoming}
use dynamo_kvsrv_pbs.Rpc.Messages.{ForwardGetResult}
use dynamo_kvsrv_pbs.Server.{ReadRepairJob}
use dynamo_kvsrv_pbs.Server.ReadRepair.{
  has_objects, is_ok_err, collect_remaining, is_same_siblings, is_same_siblings_loop,
  find_stale_replicas, finish_coord_get_read_repair,
}

-- The siblings include every version of a reply that came with objects.
abbrev pub Includes : List Object → ForwardGetResult → Type 0
Includes siblings res =
    has_objects res ≡ true → All (λ o. seen_in o siblings ≡ true) res.reply.objects

pub Includes-add_new :
    (siblings objs : List Object) (res : ForwardGetResult)
    → Includes siblings res
    → Includes (add_new siblings objs) res
Includes-add_new siblings objs res h e =
    All-mono (λ o. seen_in-add_new o siblings objs) res.reply.objects (h e)

-- The replica is repaired, or it has every version of the canonical siblings.
abbrev pub IsServed : List String → List Object → ForwardGetResult → Type 0
IsServed stale canonical res =
    res.is_ok ≡ true
    → (contains stale res.server_id ≡ true)
      ⊎ All (λ o. seen_in o res.reply.objects ≡ true) canonical

next_siblings : List Object → ForwardGetResult → List Object
next_siblings canonical res =
    if has_objects res then add_new canonical res.reply.objects else canonical

included_next :
    (canonical : List Object) (results : List ForwardGetResult) (res : ForwardGetResult)
    → All (Includes canonical) results
    → All (Includes (next_siblings canonical res)) (results ++ res ∷ [])
unfolding next_siblings
included_next canonical results res h = elim (Bool-cases (has_objects res)) [
  | inl e ↦ rw e (
      All-append (Includes (add_new canonical res.reply.objects)) results (res ∷ [])
        (All-mono (λ r. Includes-add_new canonical res.reply.objects r) results h)
        ((λ _. seen_in-add_new_incoming canonical res.reply.objects), tt))
  | inr e ↦ rw e (
      All-append (Includes canonical) results (res ∷ []) h
        ((λ p. let k : false ≡ true = rw e at p in absurd (cc)), tt))
]

collect_remaining-included :
    (canonical : List Object) (results ch : List ForwardGetResult)
    → All (Includes canonical) results
    → ((collect_remaining canonical results ch).1 ≡ results ++ ch)
      × All
          (Includes (collect_remaining canonical results ch).0)
          (collect_remaining canonical results ch).1
unfolding collect_remaining next_siblings
collect_remaining-included canonical results [] h = (sym (append-nil results), h)
collect_remaining-included canonical results (res ∷ ch) h =
    let (e, k) =
      collect_remaining-included (next_siblings canonical res) (results ++ res ∷ []) ch
        (included_next canonical results res h) in
    (e ∙ append_assoc results (res ∷ []) ch, k)

seen_of_equal : (x y : Object) → is_equal x y ≡ true → seen_by x y ≡ true
unfolding is_equal Context.is_equal
seen_of_equal x y h = ground arith

seen_of_any : (x : Object) (ys : List Object) → any (is_equal x) ys ≡ true → seen_in x ys ≡ true
seen_of_any x [] h = cc
seen_of_any x (y ∷ ys) h = ground (arith, seen_of_equal x y, seen_of_any x ys)

same_siblings_seen :
    (xs ys : List Object) → is_same_siblings_loop xs ys ≡ true → All (λ o. seen_in o ys ≡ true) xs
unfolding is_same_siblings_loop
same_siblings_seen [] ys h = tt
same_siblings_seen (x ∷ xs) ys h = elim (Bool-cases (any (is_equal x) ys)) [
  | inl e ↦ (seen_of_any x ys e, same_siblings_seen xs ys (rw e at h))
  | inr e ↦ let k : false ≡ true = rw e at h in absurd (cc)
]

-- The head of the loop: whether the replica of one result is stale.
is_stale : List Object → ForwardGetResult → Bool
is_stale canonical res =
    res.is_ok
    && (not (is_ok_err res.reply.err) || not (is_same_siblings canonical res.reply.objects))

find_stale_replicas-cons :
    (canonical : List Object) (res : ForwardGetResult) (results : List ForwardGetResult)
    → find_stale_replicas canonical (res ∷ results) ≡ (
        if is_stale canonical res
        then res.server_id ∷ find_stale_replicas canonical results
        else find_stale_replicas canonical results)
unfolding find_stale_replicas is_stale
find_stale_replicas-cons canonical res results = ground arith

IsServed-cons :
    (stale : List String) (s : String) (canonical : List Object) (res : ForwardGetResult)
    → IsServed stale canonical res
    → IsServed (s ∷ stale) canonical res
unfolding contains
IsServed-cons stale s canonical res h up = elim (h up) [
  | inl c ↦ inl (ground arith)
  | inr a ↦ inr a
]

fresh_seen :
    (canonical : List Object) (res : ForwardGetResult)
    → is_stale canonical res ≡ false
    → res.is_ok ≡ true
    → All (λ o. seen_in o res.reply.objects ≡ true) canonical
unfolding is_stale is_same_siblings
fresh_seen canonical res h up = same_siblings_seen canonical res.reply.objects (ground arith)

find_stale_replicas-IsServed :
    (canonical : List Object) (results : List ForwardGetResult)
    → All (IsServed (find_stale_replicas canonical results) canonical) results
find_stale_replicas-IsServed canonical [] = tt
find_stale_replicas-IsServed canonical (res ∷ results) =
    let rest = find_stale_replicas canonical results in
    let ih = find_stale_replicas-IsServed canonical results in
    let cons = find_stale_replicas-cons canonical res results in
    elim (Bool-cases (is_stale canonical res)) [
      | inl e ↦ move (cons ∙ rw e) (
        (λ up. inl (first rest)),
        All-mono (λ r. IsServed-cons rest res.server_id canonical r) results ih,
      )
      | inr e ↦ move (cons ∙ rw e) ((λ up. inr (fresh_seen canonical res e up)), ih)
    ]
  where
    move :
        {stale : List String}
        → find_stale_replicas canonical (res ∷ results) ≡ stale
        → All (IsServed stale canonical) (res ∷ results)
        → All (IsServed (find_stale_replicas canonical (res ∷ results)) canonical) (res ∷ results)
    move e h = subst (λ st. All (IsServed st canonical) (res ∷ results)) (sym e) h

    first : (rest : List String) → contains (res.server_id ∷ rest) res.server_id ≡ true
    first rest = unfold contains in ground (arith, string_eq.beq_iff res.server_id res.server_id)

nothing : (results : List ForwardGetResult) → All (IsServed [] []) results
nothing [] = tt
nothing (res ∷ results) = ((λ up. inr tt), nothing results)

-- A read-repair job whose siblings include the replies that it was made with ends with repairs
-- that reach every replica: the siblings that are sent include every version of every reply,
-- also of those that came later, and each replica that answered is sent them or has all their
-- versions already.
pub finish_read_repair_converges :
    (job : ReadRepairJob)
    → All (Includes job.canonical_siblings) job.results
    → All (Includes (finish_coord_get_read_repair job).args.objects) (job.results ++ job.ch)
      × All
          (IsServed
            (finish_coord_get_read_repair job).stale_replicas
            (finish_coord_get_read_repair job).args.objects)
          (job.results ++ job.ch)
unfolding finish_coord_get_read_repair
finish_read_repair_converges job h =
    let (e, k) = collect_remaining-included job.canonical_siblings job.results job.ch h in
    let r = collect_remaining job.canonical_siblings job.results job.ch in
    (rw e at k, rw e at (served r.0 r.1))
  where
    served :
        (canonical : List Object) (results : List ForwardGetResult)
        → All
            (IsServed
              (elim canonical [ [] ↦ [] | o ∷ rest ↦ find_stale_replicas (o ∷ rest) results ])
              canonical)
            results
    served [] results = nothing results
    served (o ∷ rest) results = find_stale_replicas-IsServed (o ∷ rest) results
