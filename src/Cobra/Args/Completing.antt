-- ===== src/Cobra/Args/Completing.antt =====
-- Which completion an argument gets.
use natscli.Prelude.{
  ℕ, zero, suc, false, List, [], ◌∷◌, ◌++◌, ◌≢◌, inl, inr, Option, none, some, ◌≡◌, refl, sym, ap,
  ◌∙◌, arith, Text, codes, str_eq_iff, str_eq, if◌then◌else◌, Bool-cases, length, get_elem?, any,
  cons-ne-nil, ||-neither,
}
use natscli.Cobra.Args.{
  ArgMeta, Completer, stream_names, consumer_names, attach, default_hint, register_arg,
  shell_default, is_completable, index_of, completer_at, complete_arg,
}

-- The completion that a registered argument has.
abbrev pub completer_for : ArgMeta → Option Completer
completer_for m =
    if str_eq m.name (codes "stream")
    then some stream_names
    else if str_eq m.name (codes "consumer")
    then some consumer_names
    else m.complete

pub record Registered (m n : ArgMeta) : Type 0 where
  pub same_name : n.name ≡ m.name
  pub same_required : n.required ≡ m.required
  pub same_cumulative : n.cumulative ≡ m.cumulative
  pub same_enum : n.enum ≡ m.enum
  pub hinted : n.type_hint ≢ []
  pub completes : n.complete ≡ completer_for m

hinted_lem : (m : ArgMeta) → (default_hint m).type_hint ≢ []
unfolding default_hint
hinted_lem m = elim (Bool-cases (str_eq m.type_hint [])) [
  | inl e ↦ rw e (cons-ne-nil _ _)
  | inr e ↦ rw e (λ k. cc (e, (str_eq_iff m.type_hint []).1 k))
]

attach-type_hint : (m : ArgMeta) → (attach m).type_hint ≡ m.type_hint
unfolding attach
attach-type_hint m = ground arith

registered : (m : ArgMeta) → Registered m (attach (default_hint m))
registered m = record {
  same_name = unfold attach default_hint in ground arith;
  same_required = unfold attach default_hint in ground arith;
  same_cumulative = unfold attach default_hint in ground arith;
  same_enum = unfold attach default_hint in ground arith;
  hinted = λ k. hinted_lem m (sym (attach-type_hint (default_hint m)) ∙ k);
  completes = unfold attach default_hint in ground arith;
}

-- A registered argument is the last of the command's, after those that were there; it is the one
-- that was given, with a type to print, and with the completion of streams or of consumers if it
-- bears their name.
pub register_arg_lem :
    (metas : List ArgMeta) (m : ArgMeta)
    → (n : ArgMeta) × (register_arg metas m ≡ metas ++ n ∷ []) × Registered m n
register_arg_lem metas m = (attach (default_hint m), unfold register_arg in refl, registered m)

-- The declaration that argument `i` falls under: a cumulative one at the end goes on for ever.
abbrev pub declared : List ArgMeta → ℕ → Option ArgMeta
declared [] i = none
declared (m ∷ []) zero = some m
declared (m ∷ []) (suc i) = if m.cumulative then some m else none
declared (m ∷ n ∷ ms) zero = some m
declared (m ∷ n ∷ ms) (suc i) = declared (n ∷ ms) i

index_of-suc :
    (m n : ArgMeta) (ms : List ArgMeta) (i : ℕ)
    → index_of (m ∷ n ∷ ms) (suc i) ≡ suc (index_of (n ∷ ms) i)
unfolding index_of
index_of-suc m n ms i = ground arith

index_of-zero : (m n : ArgMeta) (ms : List ArgMeta) → index_of (m ∷ n ∷ ms) 0 ≡ 0
unfolding index_of
index_of-zero m n ms = ground arith

get_elem?-index_of :
    (metas : List ArgMeta) (i : ℕ) → get_elem? metas (index_of metas i) ≡ declared metas i
get_elem?-index_of [] i = refl
get_elem?-index_of (m ∷ []) zero = unfold index_of in ground arith
get_elem?-index_of (m ∷ []) (suc i) = unfold index_of in ground arith
get_elem?-index_of (m ∷ n ∷ ms) zero = rw (index_of-zero m n ms)
get_elem?-index_of (m ∷ n ∷ ms) (suc i) = rw (index_of-suc m n ms i) (get_elem?-index_of (n ∷ ms) i)

not_completable :
    (metas : List ArgMeta) (i : ℕ)
    → any is_completable metas ≡ false
    → completer_at (get_elem? metas i) ≡ shell_default
unfolding completer_at
not_completable [] i h = refl
not_completable (m ∷ ms) zero h = unfold is_completable in ground arith
not_completable (m ∷ ms) (suc i) h = not_completable ms i (||-neither (is_completable m) _ h).1

-- Every argument, given how many stand before it, is completed as its declaration says, a trailing
-- cumulative one for every extra value; with no declaration, or no completion in it, the shell does
-- what it does by itself.
pub complete_arg_lem :
    (metas : List ArgMeta) (args : List Text)
    → complete_arg metas args ≡ completer_at (declared metas (length args))
unfolding complete_arg
complete_arg_lem metas args = elim (Bool-cases (any is_completable metas)) [
  | inl e ↦ rw e (ap completer_at (get_elem?-index_of metas (length args)))
  | inr e ↦ rw e (
      sym (not_completable metas (index_of metas (length args)) e)
      ∙ ap completer_at (get_elem?-index_of metas (length args)))
]
