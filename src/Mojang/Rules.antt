-- ===== src/Mojang/Rules.antt =====
-- src/mojang/rules.rs: whether a library or an argument applies on this platform.
pub mod Matching
use ichr.Base.{
  Bool, true, false, not, ◌&&◌, Option, none, some, List, [], ◌∷◌, Text, codes, text_eq, contains,
  if◌then◌else◌,
}
use ichr.Domain.Platform.{OsName, Arch, os_str, arch_str}
use ichr.Mojang.Types.{Rule, OsRule, Value, object, no_object}

pub record RuleContext : Type 0 where
  pub os : OsName
  pub arch : Arch
  pub features : List Text

unfoldable pub for_os_arch : OsName → Arch → RuleContext
for_os_arch os arch = record { os = os; arch = arch; features = [] }

-- `Option::is_none_or`
abbrev is_none_or : Option Text → (Text → Bool) → Bool
is_none_or none p = true
is_none_or (some a) p = p a

-- The loop over the entries, with its early return.
unfoldable pub entries_satisfied : List (Text × Bool) → List Text → Bool
entries_satisfied [] enabled = true
entries_satisfied ((key, required) ∷ obj) enabled =
    if required && not (contains enabled key) then false else entries_satisfied obj enabled

unfoldable pub features_all_satisfied : Value → List Text → Bool
unfolding entries_satisfied
features_all_satisfied no_object enabled = false
features_all_satisfied (object obj) enabled = entries_satisfied obj enabled

unfoldable pub os_matches : Option OsRule → Text → Text → Bool
os_matches none os arch = true
os_matches (some cond) os arch =
    is_none_or cond.name (λ n. text_eq n os) && is_none_or cond.arch (λ a. text_eq a arch)

abbrev features_match : Option Value → List Text → Bool
features_match none enabled = true
features_match (some v) enabled = features_all_satisfied v enabled

unfoldable pub rule_matches : RuleContext → Rule → Bool
unfolding os_matches
rule_matches ctx rule =
    os_matches rule.os (os_str ctx.os) (arch_str ctx.arch)
    && features_match rule.features ctx.features

-- One round of the loop, and the loop over `included`.
unfoldable pub apply_rule : RuleContext → Bool → Rule → Bool
apply_rule ctx included rule =
    if rule_matches ctx rule then text_eq rule.action (codes "allow") else included

unfoldable pub evaluate_from : RuleContext → Bool → List Rule → Bool
unfolding apply_rule
evaluate_from ctx included [] = included
evaluate_from ctx included (rule ∷ rules) = evaluate_from ctx (apply_rule ctx included rule) rules

unfoldable pub evaluate_rules : List Rule → RuleContext → Bool
unfolding evaluate_from
evaluate_rules [] ctx = true
evaluate_rules (rule ∷ rules) ctx = evaluate_from ctx false (rule ∷ rules)
