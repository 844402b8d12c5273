-- ===== src/Server/Pairs/Recovery.antt =====
-- What the recovery of expired leases leaves.
use capi_net.Base.{
  ℕ, ◌+◌, ◌≡◌, refl, ◌∙◌, ap, sym, inl, inr, Bool, false, not, some, List, [], ◌∷◌, arith,
  Bool-cases, count_where, select, update_where, >>=-eq-some, some_inj,
}
use capi_net.Server.Schema.{PairRow, Db, Services}
use capi_net.Server.Queue.Leases.{
  LeaseRecovery, is_expired, recover_row, spent, refresh_all, recover_expired_leases,
}
use capi_net.Server.Pairs.Operations.{refresh_all-Frame}

recovered :
    (now : ℕ) (locked : ℕ → Bool) (n : ℕ) (p : PairRow)
    → is_expired now locked (recover_row n p) ≡ false
recovered now locked n p = elim (Bool-cases (spent n p)) [ inl e ↦ rw e refl | inr e ↦ rw e refl ]

swept-none :
    (now : ℕ) (locked : ℕ → Bool) (n : ℕ) (ps : List PairRow)
    → count_where (is_expired now locked) (update_where (is_expired now locked) (recover_row n) ps)
      ≡ 0
swept-none now locked n [] = refl
swept-none now locked n (p ∷ ps) = elim (Bool-cases (is_expired now locked p)) [
  | inl e ↦
      let gone = recovered now locked n p in
      let rest = swept-none now locked n ps in rw e (rw gone (omega arith))
  | inr e ↦ let rest = swept-none now locked n ps in rw e (rw e (omega arith))
]

split-count {ℓ} :
    {A : Type ℓ} (t s : A → Bool) (xs : List A)
    → count_where (λ x. not (s x)) (select t xs) + count_where s (select t xs) ≡ count_where t xs
split-count t s [] = refl
split-count t s (x ∷ xs) = ground (arith, split-count t s xs)

-- When the recovery of expired leases commits, no pair that no other transaction had locked holds
-- an expired lease any more, and the pairs that it reports as requeued and as discarded add up to
-- those that held one.
pub recover_expired_leases-clears :
    {F : Type 0} (sv : Services F) (now : ℕ) (locked : ℕ → Bool) (n : ℕ) (db : Db F)
    {x : LeaseRecovery × Db F}
    → recover_expired_leases sv now locked n db ≡ some x
    → (count_where (is_expired now locked) x.1.pairs ≡ 0)
      × (x.0.requeued + x.0.discarded_pairs ≡ count_where (is_expired now locked) db.pairs)
unfolding recover_expired_leases
recover_expired_leases-clears sv now locked n db {x} h =
    let (done, e, h1) = >>=-eq-some (refresh_all sv now _ _) _ h in
    let last = some_inj h1 in
    let f = refresh_all-Frame sv now _ _ e in
    (
      ap (λ y. count_where (is_expired now locked) y.1.pairs) (sym last)
          ∙ ap (count_where (is_expired now locked)) f.pairs
          ∙ swept-none now locked n db.pairs,
      ap (λ y. y.0.requeued + y.0.discarded_pairs) (sym last)
          ∙ split-count (is_expired now locked) (spent n) db.pairs,
    )
