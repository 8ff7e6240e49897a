-- ===== src/Mojang/Args/Inherited.antt =====
-- The arguments of a loader's version over the game's own.
use ichr.Base.{
  none, some, List, [], ◌∷◌, ◌++◌, ◌≡◌, refl, sym, ap, ◌∙◌, Text, lookup, ok, append_assoc,
  append-nil, arith,
}
use ichr.Mojang.Types.{ArgumentEntry, Arguments, VersionJson, ResolvedVersion}
use ichr.Mojang.Rules.{RuleContext}
use ichr.Mojang.Args.{
  entry_tokens, resolve_from, resolve_arg_entries, resolve_game_args, resolve_jvm_args,
  resolve_arguments,
}
use ichr.Mojang.Inherits.{Parents, merge, merge_arguments, resolve_inherits}
use ichr.Mojang.Inherits.Chain.{Chain, root, up, flatten, resolve_inherits-IsResolved}

resolve_from-out :
    (ctx : RuleContext) (out : List Text) (es : List ArgumentEntry)
    → resolve_from out es ctx ≡ out ++ resolve_from [] es ctx
unfolding resolve_from
resolve_from-out ctx out [] = sym (append-nil out)
resolve_from-out ctx out (e ∷ es) =
    resolve_from-out ctx (out ++ entry_tokens e ctx) es
    ∙ append_assoc out (entry_tokens e ctx) (resolve_from [] es ctx)
    ∙ ap (λ x. out ++ x) (sym (resolve_from-out ctx (entry_tokens e ctx) es))

resolve_from-append :
    (ctx : RuleContext) (out : List Text) (xs ys : List ArgumentEntry)
    → resolve_from out (xs ++ ys) ctx ≡ resolve_from (resolve_from out xs ctx) ys ctx
unfolding resolve_from
resolve_from-append ctx out [] ys = refl
resolve_from-append ctx out (x ∷ xs) ys = resolve_from-append ctx (out ++ entry_tokens x ctx) xs ys

resolve_arg_entries-append :
    (ctx : RuleContext) (xs ys : List ArgumentEntry)
    → resolve_arg_entries (xs ++ ys) ctx ≡ resolve_arg_entries xs ctx ++ resolve_arg_entries ys ctx
unfolding resolve_arg_entries
resolve_arg_entries-append ctx xs ys =
    resolve_from-append ctx [] xs ys ∙ resolve_from-out ctx (resolve_from [] xs ctx) ys

-- The ancestors of a version whose parent has none.
Chain-parent :
    {parents : Parents} {v w : VersionJson} {ws : List VersionJson} (p : Text)
    → v.inherits_from ≡ some p
    → lookup p parents ≡ some w
    → w.inherits_from ≡ none
    → Chain parents v ws
    → ws ≡ w ∷ []
Chain-parent p e f n (root e') = absurd (ground arith)
Chain-parent p e f n (up q e' f' (root n')) = ground arith
Chain-parent p e f n (up q e' f' (up s e'' f'' c)) = absurd (ground arith)

flatten-arguments :
    (child parent : VersionJson) (p c : Arguments)
    → parent.arguments ≡ some p
    → child.arguments ≡ some c
    → (flatten child (parent ∷ [])).arguments
      ≡ some (record { game = p.game ++ c.game; jvm = p.jvm ++ c.jvm })
unfolding flatten merge merge_arguments
flatten-arguments child parent p c hp hc = ground arith

-- For a version over a parent that has no parent itself, where both have an `arguments` object, the
-- arguments are the parent's, resolved in the same context, with the child's behind them, for the
-- game and for the virtual machine.
pub resolve_arguments-resolve_inherits :
    (ctx : RuleContext) (parents : Parents) (child parent : VersionJson) (r : ResolvedVersion)
    (id : Text) (p c : Arguments)
    → resolve_inherits child parents ≡ ok r
    → child.inherits_from ≡ some id
    → lookup id parents ≡ some parent
    → parent.inherits_from ≡ none
    → parent.arguments ≡ some p
    → child.arguments ≡ some c
    → resolve_arguments r ctx ≡ (
      resolve_arg_entries p.game ctx ++ resolve_arg_entries c.game ctx,
      resolve_arg_entries p.jvm ctx ++ resolve_arg_entries c.jvm ctx,
    )
unfolding resolve_arguments resolve_game_args resolve_jvm_args
resolve_arguments-resolve_inherits ctx parents child parent r id p c h e f n hp hc =
    let i = resolve_inherits-IsResolved parents child r h in
    let only = Chain-parent id e f n i.chain in
    let flat : r.arguments ≡ some (record { game = p.game ++ c.game; jvm = p.jvm ++ c.jvm }) =
      i.arguments
      ∙ ap (λ ws. (flatten child ws).arguments) only
      ∙ flatten-arguments child parent p c hp hc in
    ground (
      arith,
      flat,
      resolve_arg_entries-append ctx p.game c.game,
      resolve_arg_entries-append ctx p.jvm c.jvm,
    )
