-- ===== src/Mavlink/Systems/Own.antt =====
-- The own id of the node.
use mathlib.Core.Path.{subst}
use uswarm_unitctl.Base.{
  ℕ, ◌≡◌, ◌≢◌, ◌≤◌, ◌↔◌, inl, inr, refl, sym, ap, ◌∙◌, Bool, true, false, not, ◌&&◌, ◌||◌, none,
  some, List, [], ◌∷◌, ltb, min, ◌==◌, ==_iff, ==-refl, leb, leb-true, leb-false, &&_false, &&-true,
  arith, Bool-cases, Option-cases,
}
use uswarm_unitctl.Config.{MavlinkConfig}
use uswarm_unitctl.Mavlink.Systems.{
  is_fc_sysid, has_system, get_fc_sysids, minimum, self_sysid, handle_heartbeats,
}
use uswarm_unitctl.Mavlink.Systems.Discovery.{is_internal, handle_heartbeats-has}

or_true : (b : Bool) → (b || true) ≡ true
or_true true = refl
or_true false = refl

-- A flight controller that was heard: the sniffer, the base station and the ground station are none.
pub record IsHeard (config : MavlinkConfig) (heard : List ℕ) (id : ℕ) : Type 0 where
  pub heard_it : has_system heard id ≡ true
  pub outside : is_internal config id ≡ false
  pub fc : is_fc_sysid id ≡ true

-- The least member.
pub record IsLeast (ids : List ℕ) (least : ℕ) : Type 0 where
  pub member : has_system ids least ≡ true
  pub below : (id : ℕ) → has_system ids id ≡ true → least ≤ id

some_injective : {A : Type 0} {a b : A} → some a ≡ some b → a ≡ b
some_injective h = cc

minimum_some : (y : ℕ) (ids : List ℕ) → minimum (y ∷ ids) ≢ none
unfolding minimum
minimum_some y ids h = elim (Option-cases (minimum ids)) [ inl e ↦ cc | inr (l, e) ↦ cc ]

least_member :
    (x l : ℕ) (ids : List ℕ) (least : ℕ)
    → min x l ≡ least
    → has_system ids l ≡ true
    → has_system (x ∷ ids) least ≡ true
unfolding has_system
least_member x l ids least h k = elim (Bool-cases (leb x l)) [
  | inl first ↦
      let e : x ≡ least = omega (arith, h, leb-true x l first) in
      subst (λ z. has_system (x ∷ ids) z ≡ true) e (rw (==-refl x))
  | inr later ↦
      let e : l ≡ least = omega (arith, h, leb-false x l later) in
      subst (λ z. has_system (x ∷ ids) z ≡ true) e (rw k (or_true (x == l)))
]

least_below :
    (x l : ℕ) (ids : List ℕ) (least id : ℕ)
    → min x l ≡ least
    → (has_system ids id ≡ true → l ≤ id)
    → has_system (x ∷ ids) id ≡ true
    → least ≤ id
unfolding has_system
least_below x l ids least id h k m = elim (Bool-cases (x == id)) [
  | inl same ↦ omega (arith, h, (==_iff x id).0 same)
  | inr other ↦ omega (arith, h, k (rw other at m))
]

minimum-IsLeast : (ids : List ℕ) (least : ℕ) → minimum ids ≡ some least → IsLeast ids least
unfolding minimum has_system
minimum-IsLeast [] least h = absurd (ground arith)
minimum-IsLeast (x ∷ []) least h = record {
  member = ground (arith, h);
  below = λ id k. ground (arith, h, k);
}
minimum-IsLeast (x ∷ y ∷ ids) least h = elim (Option-cases (minimum (y ∷ ids))) [
  | inl e ↦ absurd (minimum_some y ids e)
  | inr (l, e) ↦
      let r = minimum-IsLeast (y ∷ ids) l e in
      let least_is = some_injective (rw e at h) in
      record {
        member = least_member x l (y ∷ ids) least least_is r.member;
        below = λ id k. least_below x l (y ∷ ids) least id least_is (r.below id) k;
      }
]

get_fc_sysids-has :
    (systems : List ℕ) (id : ℕ)
    → has_system (get_fc_sysids systems) id ≡ (has_system systems id && is_fc_sysid id)
unfolding get_fc_sysids has_system
get_fc_sysids-has [] id = refl
get_fc_sysids-has (s ∷ systems) id = elim (Bool-cases (s == id)) [
  | inl same ↦
      let e = ap is_fc_sysid ((==_iff s id).0 same) in
      elim (Bool-cases (is_fc_sysid s)) [
        | inl fc ↦ rw (fc, same, sym e ∙ fc) refl
        | inr other ↦
            rw (other, sym e ∙ other)
              (get_fc_sysids-has systems id
                ∙ rw (sym e ∙ other) (
                    &&_false (has_system systems id)
                    ∙ sym (&&_false (has_system (s ∷ systems) id))))
      ]
  | inr other ↦ elim (Bool-cases (is_fc_sysid s)) [
    | inl fc ↦ rw (fc, other) (get_fc_sysids-has systems id)
    | inr no_fc ↦ rw (no_fc, other) (get_fc_sysids-has systems id)
  ]
]

above_zero : (n : ℕ) → n ≢ 0 → ltb 0 n ≡ true
above_zero n h = ground arith

at_zero : (n : ℕ) → n ≡ 0 → ltb 0 n ≡ false
at_zero n h = ground arith

not-true : (b : Bool) → not b ≡ true → b ≡ false
not-true true h = sym h
not-true false h = refl

IsHeard-fc :
    (config : MavlinkConfig) (heard : List ℕ) (id : ℕ)
    → (has_system (get_fc_sysids (handle_heartbeats config [] heard)) id ≡ true)
      ↔ IsHeard config heard id
unfolding has_system
IsHeard-fc config heard id =
    let known = handle_heartbeats-has config heard [] id in
    let both = get_fc_sysids-has (handle_heartbeats config [] heard) id in
    (
      λ h.
          let (a, fc) = &&-true _ _ (sym both ∙ h) in
          let (b, c) = &&-true _ _ (sym known ∙ a) in
          record { heard_it = c; outside = not-true _ b; fc = fc },
      λ v. both ∙ rw (known, v.outside, v.heard_it, v.fc) refl,
    )

-- With an own id of 0 in the configuration, what `Context::self_sysid` answers after a row of
-- heartbeats is the least id below 200 that was heard, 0 and the sniffer's, the base station's and
-- the ground station's left out; with another one it is that one.
pub self_sysid_sound :
    (config : MavlinkConfig) (heard : List ℕ) (id : ℕ)
    → self_sysid config (handle_heartbeats config [] heard) ≡ some id
    → (config.self_sysid ≢ 0 → id ≡ config.self_sysid)
      × (config.self_sysid ≡ 0
          → IsHeard config heard id × ((other : ℕ) → IsHeard config heard other → id ≤ other))
unfolding self_sysid
self_sysid_sound config heard id h = (
  λ given. some_injective (sym (rw (above_zero config.self_sysid given) at h)),
  λ unset.
      let r =
        minimum-IsLeast (get_fc_sysids (handle_heartbeats config [] heard)) id
          (rw (at_zero config.self_sysid unset) at h) in
      (
        (IsHeard-fc config heard id).0 r.member,
        λ other o. r.below other ((IsHeard-fc config heard other).1 o),
      ),
)
