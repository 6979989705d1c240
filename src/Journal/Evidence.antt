-- ===== src/Journal/Evidence.antt =====
-- `InvestmentDecision.evidence_ids` of src/investment_os/domain/decision.py.
use jz_investment_os.Base.{
  ℕ, ◌≡◌, ◌<◌, refl, ◌∙◌, ap, inl, inr, true, false, ◌||◌, List, [], ◌∷◌, ◌++◌, arith, mem, leb,
  ◌==◌, Bool-cases,
}
use jz_investment_os.Base.Sort.{sorted, insert_sorted, mem-sorted}
use jz_investment_os.Journal.{InvestmentDecision, unique, claimed_ids, evidence_ids}

-- Every element is below those that stand after it.
abbrev pub Below : ℕ → List ℕ → Type 0
Below k [] = Unit {0}
Below k (j ∷ js) = (k < j) × Below k js

abbrev pub IsAscending : List ℕ → Type 0
IsAscending [] = Unit {0}
IsAscending (k ∷ ks) = Below k ks × IsAscending ks

mem-unique : (i : ℕ) (ks : List ℕ) → mem i (unique ks) ≡ mem i ks
unfolding unique
mem-unique i [] = refl
mem-unique i (k ∷ ks) = elim (Bool-cases (mem k (unique ks))) [
  | inl e ↦ elim (Bool-cases (i == k)) [
    | inl same ↦
        let here : i ≡ k = ground (arith, same) in
        let old : mem i (unique ks) ≡ true = ap (λ j. mem j (unique ks)) here ∙ e in
        rw e (rw same old)
    | inr other ↦ rw e (rw other (mem-unique i ks))
  ]
  | inr e ↦ rw e (ap (λ b. i == k || b) (mem-unique i ks))
]

Below-trans : (i k : ℕ) (ks : List ℕ) → i < k → Below k ks → Below i ks
Below-trans i k [] h b = tt
Below-trans i k (j ∷ js) h b = (omega (arith, b.0), Below-trans i k js h b.1)

Below-insert_sorted : (i k : ℕ) (ks : List ℕ) → i < k → Below i ks → Below i (insert_sorted k ks)
unfolding insert_sorted
Below-insert_sorted i k [] h b = (h, tt)
Below-insert_sorted i k (j ∷ js) h b = ground (arith, Below-insert_sorted i k js)

insert_sorted-IsAscending :
    (k : ℕ) (ks : List ℕ) → mem k ks ≡ false → IsAscending ks → IsAscending (insert_sorted k ks)
unfolding insert_sorted
insert_sorted-IsAscending k [] m h = (tt, tt)
insert_sorted-IsAscending k (j ∷ js) m h = elim (Bool-cases (leb k j)) [
  | inl e ↦ let less : k < j = ground (arith, e, m) in rw e ((less, Below-trans k j js less h.0), h)
  | inr e ↦ rw e (
    Below-insert_sorted j k js (ground (arith, e)) h.0,
    insert_sorted-IsAscending k js (ground (arith, m)) h.1,
  )
]

sorted-unique-IsAscending : (ks : List ℕ) → IsAscending (sorted (unique ks))
unfolding sorted unique
sorted-unique-IsAscending [] = tt
sorted-unique-IsAscending (k ∷ ks) = elim (Bool-cases (mem k (unique ks))) [
  | inl e ↦ rw e (sorted-unique-IsAscending ks)
  | inr e ↦ rw e (
      insert_sorted-IsAscending k (sorted (unique ks)) (mem-sorted k (unique ks) ∙ e)
        (sorted-unique-IsAscending ks))
]

-- The Evidence index of a Decision is in ascending order without repetitions, and holds exactly the
-- identifiers that its reasons and its risks refer to.
pub evidence_ids-IsAscending :
    (d : InvestmentDecision)
    → IsAscending (evidence_ids d)
      × ((i : ℕ) → mem i (evidence_ids d) ≡ mem i (claimed_ids (d.reasons ++ d.risks)))
unfolding evidence_ids
evidence_ids-IsAscending d =
    let ids = claimed_ids (d.reasons ++ d.risks) in
    (sorted-unique-IsAscending ids, λ i. mem-sorted i (unique ids) ∙ mem-unique i ids)
