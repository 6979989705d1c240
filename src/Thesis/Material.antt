-- ===== src/Thesis/Material.antt =====
-- When `semantic_diff` finds no material change.
use jz_investment_os.Base.{
  ◌≡◌, sym, ap, ◌∙◌, ◌↔◌, Bool, true, false, not, is_empty, arith, [], select,
}
use jz_investment_os.Base.Sort.{eqb_list, eqb_list→eq, eqb_list_refl}
use jz_investment_os.Base.Order.{leb_text, minus, distinct_by, is_empty-sort_by}
use jz_investment_os.Base.Equality.{eqb_list-IsEquality}
use jz_investment_os.Thesis.{ThesisContent, same_key}
use jz_investment_os.Thesis.Payload.{leb_claim, leb_condition}
use jz_investment_os.Thesis.Diff.{
  ThesisSemanticDiff, semantic_diff, is_material, eqb_state, pillar_keys, pillar_changed,
}
use jz_investment_os.Thesis.Same.{
  SameContent, no_difference_iff, eqb_state-IsEquality, eqb_claim-IsEquality,
  eqb_condition-IsEquality,
}
use jz_investment_os.Thesis.Pillars.{SamePillars, SamePillars-iff}

-- Every field of a difference that is not material is false or empty.
record IsImmaterial (d : ThesisSemanticDiff) : Type 0 where
  state : d.state_changed ≡ false
  summary : d.summary_changed ≡ false
  pillars :
      (is_empty d.added_pillar_keys ≡ true)
      × (is_empty d.removed_pillar_keys ≡ true)
      × (is_empty d.changed_pillar_keys ≡ true)
  catalysts : (is_empty d.added_catalysts ≡ true) × (is_empty d.removed_catalysts ≡ true)
  risks : (is_empty d.added_risks ≡ true) × (is_empty d.removed_risks ≡ true)
  conditions :
      (is_empty d.added_invalidation_conditions ≡ true)
      × (is_empty d.removed_invalidation_conditions ≡ true)
  monitoring :
      (is_empty d.added_monitoring_conditions ≡ true)
      × (is_empty d.removed_monitoring_conditions ≡ true)

is_material_iff : (d : ThesisSemanticDiff) → (is_material d ≡ false) ↔ IsImmaterial d
unfolding is_material
is_material_iff d = (
  λ h. record {
    state = ground arith;
    summary = ground arith;
    pillars = (ground arith, ground arith, ground arith);
    catalysts = (ground arith, ground arith);
    risks = (ground arith, ground arith);
    conditions = (ground arith, ground arith);
    monitoring = (ground arith, ground arith);
  },
  λ i. ground arith,
)

pillars_iff :
    (p c : ThesisContent)
    → distinct_by same_key p.pillars ≡ true
    → distinct_by same_key c.pillars ≡ true
    → let d = semantic_diff p c in
      ((is_empty d.added_pillar_keys ≡ true)
        × (is_empty d.removed_pillar_keys ≡ true)
        × (is_empty d.changed_pillar_keys ≡ true))
      ↔ SamePillars p.pillars c.pillars
unfolding semantic_diff
pillars_iff p c once once_now =
    let ks = pillar_keys p.pillars in
    let ls = pillar_keys c.pillars in
    let added = is_empty-sort_by leb_text (minus eqb_list ls ks) in
    let removed = is_empty-sort_by leb_text (minus eqb_list ks ls) in
    let changed =
      is_empty-sort_by leb_text
        (select (pillar_changed p.pillars c.pillars) (minus eqb_list ks [])) in
    (
      λ h. record {
        added = sym added ∙ h.0;
        removed = sym removed ∙ h.1;
        changed = sym changed ∙ h.2;
      },
      λ s. (added ∙ s.added, removed ∙ s.removed, changed ∙ s.changed),
    )

swapped : {A B : Type 0} → (A × B) → B × A
swapped h = (h.1, h.0)

not-not : (b : Bool) → not b ≡ false → b ≡ true
not-not b h = ground arith

-- For two contents without a repeated pillar key, the semantic difference is material exactly when
-- they do not have the same state, the same summary, and the same pillars, catalysts, risks,
-- invalidation conditions and monitoring conditions in any order; the reason of the change does
-- not count.
pub semantic_diff_iff :
    (p c : ThesisContent)
    → distinct_by same_key p.pillars ≡ true
    → distinct_by same_key c.pillars ≡ true
    → (is_material (semantic_diff p c) ≡ false) ↔ SameContent p c
unfolding semantic_diff
semantic_diff_iff p c once once_now =
    let d = semantic_diff p c in
    let pillars = SamePillars-iff p.pillars c.pillars once once_now in
    let catalysts = no_difference_iff eqb_claim-IsEquality leb_claim p.catalysts c.catalysts in
    let risks = no_difference_iff eqb_claim-IsEquality leb_claim p.risks c.risks in
    let conditions =
      no_difference_iff eqb_condition-IsEquality leb_condition p.invalidation_conditions
        c.invalidation_conditions in
    let monitoring =
      no_difference_iff eqb_list-IsEquality leb_text p.monitoring_conditions
        c.monitoring_conditions in
    (
      λ h.
          let i = (is_material_iff d).0 h in
          record {
            state = eqb_state-IsEquality.sound p.state c.state (not-not _ i.state);
            summary = eqb_list→eq p.long_term_summary c.long_term_summary (not-not _ i.summary);
            pillars = pillars.0 ((pillars_iff p c once once_now).0 i.pillars);
            catalysts = catalysts.0 (swapped i.catalysts);
            risks = risks.0 (swapped i.risks);
            conditions = conditions.0 (swapped i.conditions);
            monitoring = monitoring.0 (swapped i.monitoring);
          },
      λ s. (is_material_iff d).1 (record {
        state =
            ap (λ t. not (eqb_state t c.state)) s.state
            ∙ ap not (eqb_state-IsEquality.same c.state);
        summary =
            ap (λ t. not (eqb_list t c.long_term_summary)) s.summary
            ∙ ap not (eqb_list_refl c.long_term_summary);
        pillars = (pillars_iff p c once once_now).1 (pillars.1 s.pillars);
        catalysts = swapped (catalysts.1 s.catalysts);
        risks = swapped (risks.1 s.risks);
        conditions = swapped (conditions.1 s.conditions);
        monitoring = swapped (monitoring.1 s.monitoring);
      }),
    )
