-- ===== src/Tui/KeyNames.antt =====
-- What the table of keys in a configuration binds.
use ichr.Base.{
  Option, none, some, or_else, List, [], ◌∷◌, Text, text_eq, text_eq_iff, lookup, if◌then◌else◌,
  Bool-cases, Result, err, ok, ◌≡◌, refl, sym, ap, ap₂, subst, Option-cases, ◌∙◌, inl, inr, All,
}
use ichr.Tui.Keys.{KeySpec, ActionKey, Keybinds, default_keybinds}
use ichr.Tui.Keys.Names.{
  action_to_snake, named_actions, snake_to_action, action_eq, bound, known_or, merged, deserialize,
}

-- A table that names no action twice.
abbrev pub IsTable : List (Text × KeySpec) → Type 0
IsTable [] = Unit
IsTable ((name, spec) ∷ raw) = (lookup name raw ≡ none) × IsTable raw

some-inj : {A : Type 0} {x y : A} → some x ≡ some y → x ≡ y
some-inj e = cc

ok-inj : {A E : Type 0} {x y : A} → ◌≡◌ {A = Result E A} (ok x) (ok y) → x ≡ y
ok-inj e = cc

err-ok : {A E : Type 0} {x : E} {y : A} → ◌≡◌ {A = Result E A} (err x) (ok y) → ⊥
err-ok e = cc

lookup-All :
    {V : Type 0} (P : Text × V → Type 0) (k : Text) (m : List (Text × V)) {v : V}
    → All P m
    → lookup k m ≡ some v
    → P (k, v)
unfolding lookup
lookup-All P k [] h e = cc
lookup-All P k ((j, w) ∷ m) h e = elim (Bool-cases (text_eq j k)) [
  | inl q ↦
      let hit = sym (ap (λ b. if b then some w else lookup k m) q) ∙ e in
      subst P (ap₂ (λ x y. (x, y)) ((text_eq_iff j k).0 q) (some-inj hit)) h.0
  | inr q ↦ lookup-All P k m h.1 (sym (ap (λ b. if b then some w else lookup k m) q) ∙ e)
]

action_to_snake-snake_to_action :
    (name : Text) {a : ActionKey} → snake_to_action name ≡ some a → name ≡ action_to_snake a
unfolding snake_to_action named_actions action_to_snake
action_to_snake-snake_to_action name e =
    lookup-All (λ p. p.0 ≡ action_to_snake p.1) name named_actions
      ((
        refl,
        (
          refl,
          (
            refl,
            (
              refl,
              (
                refl,
                (refl, (refl, (refl, (refl, (refl, (refl, (refl, (refl, (refl, (refl, tt)))))))))),
              ),
            ),
          ),
        ),
      ))
      e

-- One entry more, in the table and in the bindings.
lookup-entry :
    (name x : Text) (spec : KeySpec) (raw : List (Text × KeySpec)) (old : Option KeySpec)
    → lookup name raw ≡ none
    → or_else (lookup x raw) (if text_eq name x then some spec else old)
      ≡ or_else (lookup x ((name, spec) ∷ raw)) old
unfolding lookup
lookup-entry name x spec raw old t = elim (Bool-cases (text_eq name x)) [
  | inl q ↦ rw q (rw (ap (λ y. lookup y raw) (sym ((text_eq_iff name x).0 q)) ∙ t) refl)
  | inr q ↦ rw q refl
]

merged-lookup :
    (binds : Keybinds) (raw : List (Text × KeySpec)) {out : Keybinds} (a : ActionKey)
    → IsTable raw
    → merged binds raw ≡ ok out
    → out a ≡ or_else (lookup (action_to_snake a) raw) (binds a)
unfolding merged lookup bound action_eq
merged-lookup binds [] a t e = ap (λ f. f a) (sym (ok-inj e))
merged-lookup binds ((name, spec) ∷ raw) a t e = elim (Option-cases (snake_to_action name)) [
  | inl q ↦
      absurd (err-ok (sym (ap (λ o. known_or name o (λ c. merged (bound binds c spec) raw)) q) ∙ e))
  | inr (b, q) ↦
      let e' = sym (ap (λ o. known_or name o (λ c. merged (bound binds c spec) raw)) q) ∙ e in
      merged-lookup (bound binds b spec) raw a t.1 e'
      ∙ ap
          (λ n.
            or_else (lookup (action_to_snake a) raw)
              (if text_eq n (action_to_snake a) then some spec else binds a))
          (sym (action_to_snake-snake_to_action name q))
      ∙ lookup-entry name (action_to_snake a) spec raw (binds a) t.0
]

-- The name of an action.
abbrev pub IsKnown : Text × KeySpec → Type 0
IsKnown entry = (a : ActionKey) × (snake_to_action entry.0 ≡ some a)

merged-known :
    (binds : Keybinds) (raw : List (Text × KeySpec))
    → All IsKnown raw
    → (out : Keybinds) × (merged binds raw ≡ ok out)
unfolding merged
merged-known binds [] h = (binds, refl)
merged-known binds ((name, spec) ∷ raw) h =
    let (a, q) = h.0 in
    let (out, e) = merged-known (bound binds a spec) raw h.1 in
    (out, ap (λ o. known_or name o (λ c. merged (bound binds c spec) raw)) q ∙ e)

-- A table of known actions that names none twice is read, and then binds each action to the key
-- that stands beside its name, and an action that it does not name to the default key.
pub deserialize-lookup :
    (raw : List (Text × KeySpec))
    → IsTable raw
    → All IsKnown raw
    → (out : Keybinds) × (deserialize raw ≡ ok out)
      × ((a : ActionKey) → out a ≡ or_else (lookup (action_to_snake a) raw) (default_keybinds a))
unfolding deserialize
deserialize-lookup raw t h =
    let (out, e) = merged-known default_keybinds raw h in
    (out, e, λ a. merged-lookup default_keybinds raw a t e)
