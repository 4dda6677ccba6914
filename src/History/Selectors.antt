-- ===== src/History/Selectors.antt =====
-- The label selector that doResourceCleanup of history_limiter.go lists by, as `MatchLabels` of
-- helper.go reads it.
use Prim.Native.String as Str
use text.Mathlib.TextLemmas.{
  nil-append, cons-append, append-nil, append_assoc, append-eq-nil_iff, cons≢nil,
}
use tektoncd_pruner.Prelude.{
  String, true, false, List, [], ◌∷◌, ◌≡◌, refl, ap, sym, ◌∙◌, arith, ◌<>◌, ◌==◌, eq_iff, All,
  Bool-cases, inl, inr,
}
use tektoncd_pruner.Go.Dict.{Dict, entries}
use tektoncd_pruner.Go.Text.{split}
use tektoncd_pruner.Go.Text.Laws.{lacks, lacks-append, split_of_lacks, split-append}
use tektoncd_pruner.Config.Select.{all_match}
use tektoncd_pruner.Config.Helper.{pair_matches, match_pairs, match_labels}
use tektoncd_pruner.Kube.Object.{ObjectMeta}
use tektoncd_pruner.Config.Spec.{level_resource, identified_by_label}
use tektoncd_pruner.History.Limit.{join_entries, list_selector}

-- Neither text has a comma or an equals sign, as the API server asks of labels.
abbrev pub IsPlain : String × String → Type 0
IsPlain (k, v) =
    (lacks b',' k ≡ true) × (lacks b',' v ≡ true) × (lacks b'=' k ≡ true) × (lacks b'=' v ≡ true)

abbrev pair_text : String × String → String
pair_text (k, v) = k <> ("=" <> v)

equals_cons : (v : String) → ("=" <> v) ≡ Str.◌∷◌ "=" v
equals_cons v = cons-append "=" "" v ∙ ap (Str.◌∷◌ "=") (nil-append v)

comma_cons : (t : String) → ("," <> t) ≡ Str.◌∷◌ "," t
comma_cons t = cons-append "," "" t ∙ ap (Str.◌∷◌ ",") (nil-append t)

pair_split : (e : String × String) → IsPlain e → split b'=' (pair_text e) ≡ e.0 ∷ e.1 ∷ []
pair_split (k, v) (_, _, h, h') =
    ap (λ t. split b'=' (k <> t)) (equals_cons v)
    ∙ split-append b'=' k "=" v h refl
    ∙ ap (◌∷◌ k) (split_of_lacks b'=' v h')

pair_lacks_comma : (e : String × String) → IsPlain e → lacks b',' (pair_text e) ≡ true
unfolding lacks
pair_lacks_comma (k, v) (h, h', _, _) =
    ap (λ t. lacks b',' (k <> t)) (equals_cons v)
    ∙ lacks-append b',' k (Str.◌∷◌ "=" v)
    ∙ ground (arith, h, h')

nonempty_of : (t : String) → (t ≡ "" → ⊥) → (t == "") ≡ false
nonempty_of t h = elim (Bool-cases (t == "")) [
  | inl empty ↦ absurd (h ((eq_iff t "").0 empty))
  | inr other ↦ other
]

pair_nonempty : (acc : String) (e : String × String) → ((acc <> pair_text e) == "") ≡ false
pair_nonempty acc (k, v) = nonempty_of (acc <> (k <> ("=" <> v))) (λ e.
    let behind : (k <> ("=" <> v)) ≡ "" = (append-eq-nil_iff.0 e).1 in
    let last : ("=" <> v) ≡ "" = (append-eq-nil_iff.0 behind).1 in
    cons≢nil (sym (equals_cons v) ∙ last))

-- The pairs behind the first, each with its comma.
abbrev tail_text : List (String × String) → String
tail_text [] = ""
tail_text (e ∷ es) = "," <> (pair_text e <> tail_text es)

join_after :
    (es : List (String × String)) (acc : String)
    → (acc == "") ≡ false
    → join_entries es acc ≡ acc <> tail_text es
unfolding join_entries
join_after [] acc h = sym (append-nil acc)
join_after ((k, v) ∷ es) acc h = rw h (
    join_after es ((acc <> ",") <> (k <> ("=" <> v))) (pair_nonempty (acc <> ",") (k, v))
    ∙ append_assoc (acc <> ",") (k <> ("=" <> v)) (tail_text es)
    ∙ append_assoc acc "," ((k <> ("=" <> v)) <> tail_text es))

pairs_of : List (String × String) → List String
pairs_of [] = []
pairs_of (e ∷ es) = pair_text e ∷ pairs_of es

split_pairs :
    (e : String × String) (es : List (String × String))
    → All IsPlain (e ∷ es)
    → split b',' (pair_text e <> tail_text es) ≡ pairs_of (e ∷ es)
unfolding pairs_of
split_pairs e [] (h, _) =
    ap (split b',') (append-nil (pair_text e))
    ∙ split_of_lacks b',' (pair_text e) (pair_lacks_comma e h)
split_pairs e (f ∷ es) (h, hs) =
    ap (λ t. split b',' (pair_text e <> t)) (comma_cons (pair_text f <> tail_text es))
    ∙ split-append b',' (pair_text e) "," (pair_text f <> tail_text es) (pair_lacks_comma e h) refl
    ∙ ap (◌∷◌ (pair_text e)) (split_pairs f es hs)

match_pairs-eq :
    (labels : Dict String) (es : List (String × String))
    → All IsPlain es
    → match_pairs labels (pairs_of es) ≡ all_match es labels
unfolding match_pairs pair_matches all_match pairs_of
match_pairs-eq labels [] h = refl
match_pairs-eq labels ((k, v) ∷ es) h =
    rw (pair_split (k, v) h.0) (rw (match_pairs-eq labels es h.1) refl)

match_empty : (labels : Dict String) → match_labels labels "" ≡ true
unfolding match_labels match_pairs pair_matches split
match_empty labels = refl

match_labels-join :
    (labels : Dict String) (es : List (String × String))
    → All IsPlain es
    → match_labels labels (join_entries es "") ≡ all_match es labels
unfolding match_labels join_entries all_match pairs_of
match_labels-join labels [] h = match_empty labels
match_labels-join labels ((k, v) ∷ es) h =
    ap (λ t. match_pairs labels (split b',' (join_entries es t))) (nil-append (k <> ("=" <> v)))
    ∙ ap (λ t. match_pairs labels (split b',' t)) (join_after es (k <> ("=" <> v)) first_nonempty)
    ∙ ap (match_pairs labels) (split_pairs (k, v) es h)
    ∙ match_pairs-eq labels ((k, v) ∷ es) h
  where
    first_nonempty : ((k <> ("=" <> v)) == "") ≡ false
    first_nonempty =
        ap (λ t. t == "") (sym (nil-append (k <> ("=" <> v)))) ∙ pair_nonempty "" (k, v)

-- Where the limit was identified by labels, and these have neither commas nor equals signs: the
-- label selector that the runs are listed by, read by `MatchLabels`, matches exactly the labels that
-- have every entry of the run's.
pub list_selector_means_all_labels :
    (label_key resource_name : String) (m : ObjectMeta) (labels : Dict String)
    → All IsPlain (entries m.labels)
    → match_labels labels
        (list_selector level_resource identified_by_label label_key resource_name m)
      ≡ all_match (entries m.labels) labels
unfolding list_selector
list_selector_means_all_labels label_key resource_name m labels plain =
    match_labels-join labels (entries m.labels) plain
