-- ===== src/Handlers/Modem/Allowed.antt =====
-- Which AT commands the allowlist lets through.
use uswarm_unitctl.Base.{
  ◌≡◌, ◌↔◌, ◌⊎◌, inl, inr, refl, ap, ◌∙◌, Bool, true, false, ◌&&◌, List, [], ◌∷◌, ◌++◌, append-nil,
  Text, codes, trim, all, any, text_eq, text_eq_iff, contains_char, starts_with, strip_prefix,
  strip_prefix-append, strip_prefix_sound, if◌then◌else◌, arith, &&-true, Bool-cases, Option-cases,
}
use mathlib.Core.Bool.{false≢true}
use uswarm_unitctl.Handlers.Modem.{
  safe_at_prefixes, query_only_at_prefixes, is_plain, to_uppercase, is_query_suffix, query_allowed,
  allowed_upper, is_allowed_at_command,
}

-- Some prefix of the list has the property.
abbrev pub OneOf : (Text → Type 0) → List Text → Type 0
OneOf P [] = ⊥
OneOf P (p ∷ ps) = P p ⊎ OneOf P ps

-- The command begins with the prefix, and anything may follow.
abbrev pub Extends : Text → Text → Type 0
Extends upper p = (rest : Text) × (upper ≡ p ++ rest)

-- The command is the prefix, alone or asking for its value or for its range.
abbrev pub Queries : Text → Text → Type 0
Queries upper p = (upper ≡ p) ⊎ (upper ≡ p ++ codes "?") ⊎ (upper ≡ p ++ codes "=?")

query_suffix : (s : Text) → is_query_suffix s ≡ true → (s ≡ []) ⊎ (s ≡ codes "?") ⊎ (s ≡ codes "=?")
query_suffix [] h = inl refl
query_suffix (c ∷ s) h =
    ground (arith, text_eq_iff (c ∷ s) (codes "?"), text_eq_iff (c ∷ s) (codes "=?"))

safe_sound :
    (ps : List Text) (upper : Text)
    → any (λ p. starts_with upper p) ps ≡ true
    → OneOf (Extends upper) ps
safe_sound [] upper h = cc
safe_sound (p ∷ ps) upper h = elim (Option-cases (strip_prefix upper p)) [
  | inl e ↦ inr (safe_sound ps upper (ground (arith, e)))
  | inr (rest, e) ↦ inl (rest, strip_prefix_sound upper p rest e)
]

safe_complete :
    (ps : List Text) (upper : Text)
    → OneOf (Extends upper) ps
    → any (λ p. starts_with upper p) ps ≡ true
safe_complete [] upper h = absurd h
safe_complete (p ∷ ps) upper (inl (rest, e)) = rw (e, strip_prefix-append p rest)
safe_complete (p ∷ ps) upper (inr h) = ground (arith, safe_complete ps upper h)

Queries-suffix :
    (upper p : Text) {s : Text}
    → upper ≡ p ++ s
    → (s ≡ []) ⊎ (s ≡ codes "?") ⊎ (s ≡ codes "=?")
    → Queries upper p
Queries-suffix upper p e (inl f) = inl (e ∙ ap (λ t. p ++ t) f ∙ append-nil p)
Queries-suffix upper p e (inr (inl f)) = inr (inl (e ∙ ap (λ t. p ++ t) f))
Queries-suffix upper p e (inr (inr f)) = inr (inr (e ∙ ap (λ t. p ++ t) f))

query_sound :
    (ps : List Text) (upper : Text) → query_allowed ps upper ≡ true → OneOf (Queries upper) ps
unfolding query_allowed
query_sound [] upper h = cc
query_sound (p ∷ ps) upper h = elim (Option-cases (strip_prefix upper p)) [
  | inl e ↦ inr (query_sound ps upper (ground (arith, e)))
  | inr (s, e) ↦
      inl (
        Queries-suffix upper p (strip_prefix_sound upper p s e)
          (query_suffix s (ground (arith, e))))
]

-- The three queries of a prefix pass.
abbrev passes_queries : Text → Bool
passes_queries p =
    allowed_upper p && allowed_upper (p ++ codes "?") && allowed_upper (p ++ codes "=?")

-- No earlier prefix of either list decides a query of a listed prefix.
queries_table : all passes_queries query_only_at_prefixes ≡ true
unfolding allowed_upper query_allowed strip_prefix text_eq
queries_table = refl

one_query :
    (p upper : Text) → passes_queries p ≡ true → Queries upper p → allowed_upper upper ≡ true
one_query p upper h (inl e) = ap allowed_upper e ∙ ground (arith, h)
one_query p upper h (inr (inl e)) = ap allowed_upper e ∙ ground (arith, h)
one_query p upper h (inr (inr e)) = ap allowed_upper e ∙ ground (arith, h)

query_complete :
    (ps : List Text) (upper : Text)
    → all passes_queries ps ≡ true
    → OneOf (Queries upper) ps
    → allowed_upper upper ≡ true
query_complete [] upper h q = absurd q
query_complete (p ∷ ps) upper h (inl q) = one_query p upper (&&-true _ _ h).0 q
query_complete (p ∷ ps) upper h (inr q) = query_complete ps upper (&&-true _ _ h).1 q

-- A command that can neither set anything through a listed prefix with a write form, nor carry a
-- second command behind a semicolon.
pub record IsAllowed (cmd : Text) : Type 0 where
  pub plain : all is_plain (trim cmd) ≡ true
  pub unchained : contains_char (to_uppercase (trim cmd)) b';' ≡ false
  pub form :
      OneOf (Extends (to_uppercase (trim cmd))) safe_at_prefixes
      ⊎ OneOf (Queries (to_uppercase (trim cmd))) query_only_at_prefixes

form_sound :
    (upper : Text)
    → (if any (λ p. starts_with upper p) safe_at_prefixes
        then true
        else query_allowed query_only_at_prefixes upper)
      ≡ true
    → OneOf (Extends upper) safe_at_prefixes ⊎ OneOf (Queries upper) query_only_at_prefixes
form_sound upper h = elim (Bool-cases (any (λ p. starts_with upper p) safe_at_prefixes)) [
  | inl safe ↦ inl (safe_sound safe_at_prefixes upper safe)
  | inr unsafe ↦ inr (query_sound query_only_at_prefixes upper (rw unsafe at h))
]

allowed_upper_sound :
    (upper : Text)
    → allowed_upper upper ≡ true
    → (contains_char upper b';' ≡ false)
      × (OneOf (Extends upper) safe_at_prefixes ⊎ OneOf (Queries upper) query_only_at_prefixes)
unfolding allowed_upper
allowed_upper_sound upper h = elim (Bool-cases (contains_char upper b';')) [
  | inl e ↦ absurd (false≢true (rw e at h))
  | inr e ↦ (e, form_sound upper (rw e at h))
]

safe_allowed :
    (upper : Text)
    → contains_char upper b';' ≡ false
    → OneOf (Extends upper) safe_at_prefixes
    → allowed_upper upper ≡ true
unfolding allowed_upper
safe_allowed upper e h = rw (e, safe_complete safe_at_prefixes upper h)

-- The allowlist lets a command through exactly if, trimmed and in capitals, it has only printable
-- ASCII characters, no semicolon, and either begins with a read-only prefix or is one of the three
-- query forms of a prefix that has a write form.
pub is_allowed_at_command_iff : (cmd : Text) → (is_allowed_at_command cmd ≡ true) ↔ IsAllowed cmd
unfolding is_allowed_at_command
is_allowed_at_command_iff cmd = (
  λ h. elim (Bool-cases (all is_plain (trim cmd))) [
    | inr e ↦ absurd (false≢true (rw e at h))
    | inl e ↦
        let (unchained, form) = allowed_upper_sound (to_uppercase (trim cmd)) (rw e at h) in
        record { plain = e; unchained = unchained; form = form }
  ],
  λ v. rw v.plain (elim v.form [
    | inl safe ↦ safe_allowed (to_uppercase (trim cmd)) v.unchained safe
    | inr query ↦
        query_complete query_only_at_prefixes (to_uppercase (trim cmd)) queries_table query
  ]),
)
