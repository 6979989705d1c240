-- ===== src/Portfolio/Headroom.antt =====
-- The room under one limit.
use jz_investment_os.Base.{
  ◌≡◌, ◌⊎◌, refl, inl, inr, ok, arith, Bool-cases, ltb→lt, ltb_false→le, ap,
}
use jz_investment_os.Base.Decimal.{
  Decimal, d0, d1, ◌+ℤ◌, ◌-ℤ◌, ◌≤ℤ◌, max_ℤ, ltb_ℤ, int_laws, eq_of_parts, pos_part, neg_part,
}
use jz_investment_os.Values.{Weight, weight, finite}
use jz_investment_os.Values.Bounds.{IsWeight, weight_iff}
use jz_investment_os.Portfolio.{headroom}

pub weight_ok : (v : Decimal) → d0 ≤ℤ v → v ≤ℤ d1 → weight (finite v) ≡ ok (record { value = v })
weight_ok v p q =
    (weight_iff (finite v) (record { value = v })).1 (refl, record { nonneg = p; at_most_one = q })

pub room : Weight → Weight → Weight → Decimal
room l c p = max_ℤ d0 (l.value -ℤ c.value -ℤ p.value)

-- Room under a limit: none, or what is left above the current and the pending weight.
pub record IsRoom (l c p : Weight) (v : Decimal) : Type 0 where
  pub nonneg : d0 ≤ℤ v
  pub at_most_one : v ≤ℤ d1
  pub fits : (v ≡ d0) ⊎ (c.value +ℤ p.value +ℤ v ≤ℤ l.value)

pub room-IsRoom :
    (l c p : Weight) → IsWeight l → IsWeight c → IsWeight p → IsRoom l c p (room l c p)
unfolding room
room-IsRoom l c p wl wc wp = elim (Bool-cases (ltb_ℤ d0 (l.value -ℤ c.value -ℤ p.value))) [
  | inl e ↦
      let above = ltb→lt _ _ e in
      rw e (record {
        nonneg = omega (int_laws, above);
        at_most_one = omega int_laws;
        fits = inr (omega int_laws);
      })
  | inr e ↦ rw e (record { nonneg = omega arith; at_most_one = omega arith; fits = inl refl })
]

abbrev pub room_weight : Weight → Weight → Weight → Weight
room_weight l c p = record { value = room l c p }

pub headroom_ok :
    (l c p : Weight)
    → IsWeight l
    → IsWeight c
    → IsWeight p
    → headroom l c p ≡ ok (room_weight l c p)
unfolding headroom room
headroom_ok l c p wl wc wp =
    let r = room-IsRoom l c p wl wc wp in weight_ok (room l c p) r.nonneg r.at_most_one

-- An increase that keeps one limit: it is zero, or it fits above the current and pending weight.
abbrev pub Keeps : Weight → Weight → Weight → Decimal → Type 0
Keeps limit current pending increase =
    (increase ≡ d0) ⊎ (current.value +ℤ pending.value +ℤ increase ≤ℤ limit.value)

pub Keeps-room :
    (l c p : Weight) (v w : Decimal) → IsRoom l c p v → d0 ≤ℤ w → w ≤ℤ v → Keeps l c p w
Keeps-room l c p v w r lo hi = elim r.fits [
  | inl e ↦ inl (eq_of_parts w d0 (omega (arith, ap pos_part e, ap neg_part e)))
  | inr h ↦ inr (omega (int_laws, h))
]

-- No increase that keeps a limit is larger than its room.
pub room_greatest : (l c p : Weight) (v : Decimal) → Keeps l c p v → v ≤ℤ room l c p
unfolding room
room_greatest l c p v k = elim (Bool-cases (ltb_ℤ d0 (l.value -ℤ c.value -ℤ p.value))) [
  | inl e ↦ elim k [
    | inl z ↦ rw e (rw z (let above = ltb→lt _ _ e in omega (int_laws, above)))
    | inr h ↦ rw e (omega (int_laws, h))
  ]
  | inr e ↦ elim k [
    | inl z ↦ rw e (rw z (omega arith))
    | inr h ↦ rw e (let below = ltb_false→le _ _ e in omega (int_laws, h, below))
  ]
]
