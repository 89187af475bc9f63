-- ===== src/CommandLine/Parse/Required.antt =====
-- What the caller of `parse` may rely on for a required text option (examples/add-runner.js, modules
-- 6512, 5344 and 8098).
use github_runner_autoscaler.Common.Dict.{lookup}
use github_runner_autoscaler.Common.{
  ◌≡◌, ◌≢◌, ◌⊎◌, refl, ap, sym, ◌∙◌, arith, Text, text_eq, text_eq→eq, Bool, true, false, List, [],
  ◌∷◌, All, Option, some, Bool-cases, Option-cases, inl, inr,
}
use mathlib.Core.Path.{subst}
use github_runner_autoscaler.CommandLine.Definitions.{
  Definition, string_kind, Value, one, many, text, null, undefined, number, boolean, is_multiple,
}
use github_runner_autoscaler.CommandLine.Output.{Object}
use github_runner_autoscaler.CommandLine.Output.Typed.{
  FitsOption, FitsValue, HasFittingDefault, Member, IsOptionValue,
}
use github_runner_autoscaler.CommandLine.Booleans.{ArgumentConfig}
use github_runner_autoscaler.CommandLine.Parse.{returned, option_list, is_absent, is_missing, parse}
use github_runner_autoscaler.CommandLine.Parse.Laws.{present_of_present, parse-returned}
use github_runner_autoscaler.CommandLine.Parse.Typed.{AreSingle, parse-typed}

-- The entry is one of the configuration's.
abbrev pub IsIn : ArgumentConfig → List ArgumentConfig → Type 0
IsIn c [] = ⊥
IsIn c (e ∷ es) = (e ≡ c) ⊎ IsIn c es

-- No two options have the same name.
abbrev pub AreDistinct : List ArgumentConfig → Type 0
AreDistinct [] = Unit
AreDistinct (c ∷ cs) = All (λ e. e.definition.name ≢ c.definition.name) cs × AreDistinct cs

-- A required option for one text.
pub record IsRequiredText (c : ArgumentConfig) : Type 0 where
  pub required : c.optional ≡ false
  pub of_text : c.definition.kind ≡ string_kind
  pub single : is_multiple c.definition ≡ false

All-IsIn :
    (P : ArgumentConfig → Type 0) (c : ArgumentConfig) (cs : List ArgumentConfig)
    → IsIn c cs
    → All P cs
    → P c
All-IsIn P c [] i h = elim i [ ]
All-IsIn P c (e ∷ cs) (inl q) (he, h) = subst P q he
All-IsIn P c (e ∷ cs) (inr i) (he, h) = All-IsIn P c cs i h

name_of_Member :
    (d : Definition) (n : Text) (cs : List ArgumentConfig)
    → Member d (option_list cs)
    → d.name ≡ n
    → All (λ e. e.definition.name ≢ n) cs
    → ⊥
name_of_Member d n [] m e h = m
name_of_Member d n (c ∷ cs) (inl q) e (hc, h) = hc (ap (λ k. k.name) (sym q) ∙ e)
name_of_Member d n (c ∷ cs) (inr m) e (hc, h) = name_of_Member d n cs m e h

unique :
    (d : Definition) (c : ArgumentConfig) (cs : List ArgumentConfig)
    → AreDistinct cs
    → Member d (option_list cs)
    → IsIn c cs
    → d.name ≡ c.definition.name
    → d ≡ c.definition
unique d c [] h m i e = elim m [ ]
unique d c (b ∷ cs) (hb, h) (inl q) (inl p) e = q ∙ ap (λ k. k.definition) p
unique d c (b ∷ cs) (hb, h) (inl q) (inr i) e =
    absurd
      (All-IsIn (λ k. k.definition.name ≢ b.definition.name) c cs i hb (sym e ∙ ap (λ k. k.name) q))
unique d c (b ∷ cs) (hb, h) (inr m) (inl p) e =
    absurd (name_of_Member d b.definition.name cs m (e ∙ ap (λ k. k.definition.name) (sym p)) hb)
unique d c (b ∷ cs) (hb, h) (inr m) (inr i) e = unique d c cs h m i e

lookup-All :
    (P : Text × Value → Type 0) (k : Text) (v : Value) (obj : Object)
    → All P obj
    → lookup k obj ≡ some v
    → P (k, v)
unfolding lookup
lookup-All P k v [] h e = absurd (ground (arith, e))
lookup-All P k v ((j, w) ∷ obj) (hw, h) e = elim (Bool-cases (text_eq j k)) [
  | inl b ↦
      let same : w ≡ v = ground (arith, rw b at e) in
      subst (λ t. P (t, v)) (text_eq→eq j k b) (subst (λ u. P (j, u)) same hw)
  | inr b ↦ lookup-All P k v obj h (rw b at e)
]

text_of_fits :
    (v : Value)
    → FitsValue string_kind v
    → is_absent (some v) ≡ false
    → (t : Text) × (v ≡ one (text t))
text_of_fits (many vs) f a = elim f [ ]
text_of_fits (one (text t)) f a = (t, refl)
text_of_fits (one null) f a = absurd (ground (arith, a))
text_of_fits (one undefined) f a = absurd (ground (arith, a))
text_of_fits (one (number n)) f a = elim f [ ]
text_of_fits (one (boolean b)) f a = elim f [ ]

-- A required option for one text has a text in the object that `parse` returns, where no option takes
-- several values, names are distinct, and defaults are of their options' types.
pub parse-IsRequiredText :
    (truth : Text → Bool) (config : List ArgumentConfig) (help_arg : Option Text) (argv : List Text)
    (obj : Object) (c : ArgumentConfig)
    → AreSingle config
    → AreDistinct config
    → All HasFittingDefault (option_list config)
    → IsIn c config
    → IsRequiredText c
    → parse truth config help_arg true argv ≡ returned obj
    → (t : Text) × (lookup c.definition.name obj ≡ some (one (text t)))
parse-IsRequiredText truth config help_arg argv obj c s d f i r e =
    let typed = parse-typed config truth help_arg true argv obj s f e in
    let present : is_missing obj c ≡ false =
      All-IsIn (λ k. is_missing obj k ≡ false) c config i
        (parse-returned truth config help_arg argv obj e).0 in
    let there = present_of_present c obj r.required present in
    elim (Option-cases (lookup c.definition.name obj)) [
      | inl n ↦ absurd (ground (arith, rw n at there))
      | inr (v, l) ↦
          let (o, m, name, fits) =
            lookup-All (λ p. IsOptionValue (option_list config) p.0 p.1) c.definition.name v obj
              typed l in
          let same : o ≡ c.definition = unique o c config d m i name in
          let (t, q) =
            text_of_fits v
              (fits_text v (subst (λ k. FitsOption (is_multiple k) k.kind v) same fits))
              (rw l at there) in
          (t, l ∙ ap some q)
    ]
  where
    fits_text :
        (v : Value)
        → FitsOption (is_multiple c.definition) c.definition.kind v
        → FitsValue string_kind v
    fits_text v h = rw (r.single, r.of_text) at h
