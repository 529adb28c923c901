-- ===== src/Merkle/Encode.antt =====
-- What src/kvsrv/merkle.go writes into a hash: each function gives the bytes that its Go namesake
-- writes. A string has a character for each byte.
pub mod Injective
pub mod Lengths
use Prim.Native.Char.{code}
use dynamo_kvsrv_pbs.Prelude.{
  ℕ, zero, suc, ◌+◌, ◌%◌, ◌/◌, String, Bool, not, List, [], ◌∷◌, ◌++◌, Option, none, length,
  if◌then◌else◌, Bytes,
}
use dynamo_kvsrv_pbs.VClock.{VcEntry, to_vc_entries}
use dynamo_kvsrv_pbs.Rpc.Object.{Object, is_ordered, sort_objects}

-- `[]byte(s)`
abbrev pub codes : String → Bytes
codes String.[] = []
codes (String.◌∷◌ c s) = code c ∷ codes s

-- The low `n` bytes of x, the lowest first.
unfoldable pub little_endian : ℕ → ℕ → Bytes
little_endian zero x = []
little_endian (suc n) x = x % 256 ∷ little_endian n (x / 256)

unfoldable pub write_uint64 : ℕ → Bytes
unfolding little_endian
write_uint64 x = little_endian 8 x

unfoldable pub write_bytes : Bytes → Bytes
write_bytes b = write_uint64 (length b) ++ b

unfoldable pub write_string : String → Bytes
unfolding write_bytes
write_string s = write_bytes (codes s)

unfoldable pub write_entries : List VcEntry → Bytes
write_entries [] = []
write_entries ((node, version) ∷ entries) =
    write_string node ++ write_uint64 version ++ write_entries entries

unfoldable pub write_object : Object → Bytes
unfolding write_entries
write_object obj =
    let vc = to_vc_entries obj.context.vc in
    write_string obj.value
    ++ write_uint64 obj.context.timestamp
    ++ write_uint64 (length vc)
    ++ write_entries vc

unfoldable pub write_objects : List Object → Bytes
write_objects [] = []
write_objects (obj ∷ objs) = write_object obj ++ write_objects objs

-- `objs` after the test and the sort of `writeKVPair`.
unfoldable pub ordered : List Object → List Object
ordered objs = if not (is_ordered objs none) then sort_objects objs none else objs

unfoldable pub write_kv_pair : String → List Object → Bytes
unfolding ordered write_objects
write_kv_pair key objs =
    write_string key ++ write_uint64 (length objs) ++ write_objects (ordered objs)
