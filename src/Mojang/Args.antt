-- ===== src/Mojang/Args.antt =====
-- src/mojang/args.rs: the argument templates of a version as a flat list of tokens.
pub mod Tokens
pub mod Inherited
use ichr.Base.{ℕ, Bool, ◌||◌, Option, none, some, List, [], ◌∷◌, ◌++◌, Text, ◌==◌, if◌then◌else◌}
use ichr.Mojang.Types.{
  ArgValue, single, multiple, ArgumentEntry, plain, conditional, Arguments, ResolvedVersion,
}
use ichr.Mojang.Rules.{RuleContext, evaluate_rules}

abbrev value_tokens : ArgValue → List Text
value_tokens (single s) = s ∷ []
value_tokens (multiple vs) = vs

unfoldable pub entry_tokens : ArgumentEntry → RuleContext → List Text
entry_tokens (plain s) ctx = s ∷ []
entry_tokens (conditional cond) ctx =
    if evaluate_rules cond.rules ctx then value_tokens cond.value else []

-- The loop over the entries, which extends `out`.
unfoldable pub resolve_from : List Text → List ArgumentEntry → RuleContext → List Text
unfolding entry_tokens
resolve_from out [] ctx = out
resolve_from out (entry ∷ entries) ctx = resolve_from (out ++ entry_tokens entry ctx) entries ctx

unfoldable pub resolve_arg_entries : List ArgumentEntry → RuleContext → List Text
unfolding resolve_from
resolve_arg_entries entries ctx = resolve_from [] entries ctx

-- `u8::is_ascii_whitespace`: space, tab, line feed, form feed, carriage return.
abbrev pub is_ascii_whitespace : ℕ → Bool
is_ascii_whitespace c = c == 32 || (c == 9 || (c == 10 || (c == 12 || c == 13)))

-- A token that is complete is kept unless it is empty.
abbrev pub close_token : Text → List Text → List Text
close_token [] rest = rest
close_token (c ∷ cur) rest = (c ∷ cur) ∷ rest

-- `str::split_ascii_whitespace`, with the token so far.
unfoldable pub split_whitespace_from : Text → Text → List Text
split_whitespace_from cur [] = close_token cur []
split_whitespace_from cur (c ∷ s) =
    let closed = close_token cur (split_whitespace_from [] s) in
    let longer = split_whitespace_from (cur ++ c ∷ []) s in
    if is_ascii_whitespace c then closed else longer

unfoldable pub split_legacy_template : Text → List Text
unfolding split_whitespace_from
split_legacy_template s = split_whitespace_from [] s

abbrev legacy_args : Option Text → List Text
legacy_args (some legacy) = split_legacy_template legacy
legacy_args none = []

unfoldable pub resolve_game_args : ResolvedVersion → RuleContext → List Text
resolve_game_args version ctx = elim version.arguments [
  | some args ↦ resolve_arg_entries args.game ctx
  | none ↦ legacy_args version.minecraft_arguments
]

unfoldable pub resolve_jvm_args : ResolvedVersion → RuleContext → List Text
resolve_jvm_args version ctx = elim version.arguments [
  | some args ↦ resolve_arg_entries args.jvm ctx
  | none ↦ []
]

unfoldable pub resolve_arguments : ResolvedVersion → RuleContext → List Text × List Text
resolve_arguments version ctx = (resolve_game_args version ctx, resolve_jvm_args version ctx)
