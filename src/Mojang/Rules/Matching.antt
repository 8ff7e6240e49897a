-- ===== src/Mojang/Rules/Matching.antt =====
-- Which rule decides: the last one that matches.
use ichr.Base.{
  Bool, true, false, List, [], ◌∷◌, ◌++◌, ◌≡◌, refl, some, Text, codes, text_eq, contains, All,
  arith,
}
use ichr.Mojang.Types.{Rule, object}
use ichr.Mojang.Rules.{
  RuleContext, entries_satisfied, features_all_satisfied, rule_matches, apply_rule, evaluate_from,
  evaluate_rules,
}

evaluate_from-append :
    (ctx : RuleContext) (b : Bool) (xs ys : List Rule)
    → evaluate_from ctx b (xs ++ ys) ≡ evaluate_from ctx (evaluate_from ctx b xs) ys
unfolding evaluate_from
evaluate_from-append ctx b [] ys = refl
evaluate_from-append ctx b (x ∷ xs) ys = evaluate_from-append ctx (apply_rule ctx b x) xs ys

-- Rules that do not match change nothing.
evaluate_from-skip :
    (ctx : RuleContext) (b : Bool) (ys : List Rule)
    → All (λ q. rule_matches ctx q ≡ false) ys
    → evaluate_from ctx b ys ≡ b
unfolding evaluate_from
evaluate_from-skip ctx b [] h = refl
evaluate_from-skip ctx b (y ∷ ys) h = rw h.0 (evaluate_from-skip ctx b ys h.1)

evaluate_rules-cons :
    (ctx : RuleContext) (xs ys : List Rule) (r : Rule)
    → evaluate_rules (xs ++ r ∷ ys) ctx ≡ evaluate_from ctx false (xs ++ r ∷ ys)
unfolding evaluate_rules
evaluate_rules-cons ctx [] ys r = refl
evaluate_rules-cons ctx (x ∷ xs) ys r = refl

-- The last matching rule decides: where `r` matches and no rule behind it does, the result is
-- whether the action of `r` is "allow", whatever stands before it.
pub evaluate_rules-last :
    (ctx : RuleContext) (xs ys : List Rule) (r : Rule)
    → rule_matches ctx r ≡ true
    → All (λ q. rule_matches ctx q ≡ false) ys
    → evaluate_rules (xs ++ r ∷ ys) ctx ≡ text_eq r.action (codes "allow")
unfolding apply_rule
evaluate_rules-last ctx xs ys r m h =
    rw (evaluate_rules-cons, evaluate_from-append)
      (unfold evaluate_from in rw m (evaluate_from-skip ctx _ ys h))

-- Where rules are given and none of them matches, the library is left out.
pub evaluate_rules-none :
    (ctx : RuleContext) (r : Rule) (rules : List Rule)
    → All (λ q. rule_matches ctx q ≡ false) (r ∷ rules)
    → evaluate_rules (r ∷ rules) ctx ≡ false
unfolding evaluate_rules
evaluate_rules-none ctx r rules h = evaluate_from-skip ctx false (r ∷ rules) h

entries_satisfied-required :
    (xs ys : List (Text × Bool)) (key : Text) (enabled : List Text)
    → contains enabled key ≡ false
    → entries_satisfied (xs ++ (key, true) ∷ ys) enabled ≡ false
unfolding entries_satisfied
entries_satisfied-required [] ys key enabled h = ground arith
entries_satisfied-required ((k, b) ∷ xs) ys key enabled h =
    ground (arith, entries_satisfied-required xs ys key enabled h)

-- A rule that requires a feature which is not enabled has no effect wherever it stands before
-- another rule.
pub evaluate_rules-gated :
    (ctx : RuleContext) (xs ys : List Rule) (r y : Rule) (before after : List (Text × Bool))
    (key : Text)
    → r.features ≡ some (object (before ++ (key, true) ∷ after))
    → contains ctx.features key ≡ false
    → evaluate_rules (xs ++ r ∷ y ∷ ys) ctx ≡ evaluate_rules (xs ++ y ∷ ys) ctx
unfolding apply_rule
evaluate_rules-gated ctx xs ys r y before after key e h =
    rw
      (
        evaluate_rules-cons ctx xs (y ∷ ys) r,
        evaluate_rules-cons ctx xs ys y,
        evaluate_from-append ctx false xs (r ∷ y ∷ ys),
        evaluate_from-append ctx false xs (y ∷ ys),
      )
      (unfold evaluate_from in rw unmatched refl)
  where
    unmatched : rule_matches ctx r ≡ false
    unmatched =
        unfold rule_matches features_all_satisfied in
        ground (arith, entries_satisfied-required before after key ctx.features h)
