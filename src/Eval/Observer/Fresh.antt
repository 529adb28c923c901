-- ===== src/Eval/Observer/Fresh.antt =====
-- What `IsConsistent` of src/kvsrv_eval/observer.go decides.
use dynamo_kvsrv_pbs.Prelude.{
  ◌≡◌, refl, sym, ◌∙◌, ap, true, false, List, [], ◌∷◌, Bool-cases, inl, inr, All,
}
use dynamo_kvsrv_pbs.VClock.{before_or_equal, after}
use dynamo_kvsrv_pbs.VClock.Laws.{flip}
use dynamo_kvsrv_pbs.Rpc.Object.{Object, compare_to}
use dynamo_kvsrv_pbs.Rpc.Object.Seen.{Cmp-cases, seen_by, seen_in, seen_by_trans, compare_to-flip}
use dynamo_kvsrv_pbs.Rpc.Object.Antichain.{IsConcurrent, IsAntichain}
use dynamo_kvsrv_pbs.Eval.Observer.{is_consistent}

-- A write that is after an object is not included by what is concurrent with the object.
after_one :
    (write_obj read_obj : Object) (rest : List Object)
    → compare_to write_obj read_obj ≡ after
    → All (IsConcurrent read_obj) rest
    → seen_in write_obj rest ≡ false
after_one w r [] e a = refl
after_one w r (s ∷ rest) e a = elim (Bool-cases (seen_by w s)) [
  | inr n ↦ rw n (after_one w r rest e a.1)
  | inl p ↦
      let first : seen_by r w ≡ true = ap before_or_equal (compare_to-flip w r ∙ ap flip e) in
      let k : seen_by r s ≡ true = seen_by_trans r w s first p in
      let n : seen_by r s ≡ false = ap before_or_equal a.0 in absurd (cc (k, n))
]

-- IsConsistent is true exactly when some returned object includes the version of the write, if
-- the returned objects are pairwise concurrent.
pub is_consistent_iff :
    (write_obj : Object) (read_objs : List Object)
    → IsAntichain read_objs
    → is_consistent write_obj read_objs ≡ seen_in write_obj read_objs
unfolding is_consistent
is_consistent_iff w [] a = refl
is_consistent_iff w (r ∷ rest) a = elim (Cmp-cases (compare_to w r)) [
  | inl e ↦ rw (e, is_consistent) refl
  | inr (inl e) ↦ rw (e, is_consistent) refl
  | inr (inr (inl e)) ↦ rw (e, is_consistent) (sym (after_one w r rest e a.0))
  | inr (inr (inr e)) ↦ rw (e, is_consistent) (is_consistent_iff w rest a.1)
]
