-- ===== src/AddRunner/Options/Laws.antt =====
-- What `GetConfig` may rely on (add-runner/src/config.ts).
use github_runner_autoscaler.Common.Dict.{lookup}
use github_runner_autoscaler.Common.{
  ◌≡◌, ◌≢◌, refl, arith, Text, String, codes, text_eq, text_eq_iff, Bool, true, false, not, ◌&&◌,
  List, [], ◌∷◌, All, Option, none, some, all, inl, inr,
}
use github_runner_autoscaler.CommandLine.Definitions.{string_kind, Value, one, text}
use github_runner_autoscaler.CommandLine.Output.{Object}
use github_runner_autoscaler.CommandLine.Output.Typed.{HasFittingDefault}
use github_runner_autoscaler.CommandLine.Booleans.{ArgumentConfig}
use github_runner_autoscaler.CommandLine.Parse.{returned, option_list}
use github_runner_autoscaler.CommandLine.Parse.Typed.{AreSingle}
use github_runner_autoscaler.CommandLine.Parse.Required.{IsIn, AreDistinct, parse-IsRequiredText}
use github_runner_autoscaler.AddRunner.Options.{argument, arguments, parse_arguments}

abbrev is_fresh : Text → List ArgumentConfig → Bool
is_fresh n cs = all (λ e. not (text_eq e.definition.name n)) cs

abbrev are_distinct : List ArgumentConfig → Bool
are_distinct [] = true
are_distinct (c ∷ cs) = is_fresh c.definition.name cs && are_distinct cs

All-of_fresh :
    (n : Text) (cs : List ArgumentConfig)
    → is_fresh n cs ≡ true
    → All (λ e. e.definition.name ≢ n) cs
All-of_fresh n [] h = tt
All-of_fresh n (c ∷ cs) h = (
  (λ e. ground (arith, h, text_eq_iff c.definition.name n, e)),
  All-of_fresh n cs (ground (arith, h)),
)

AreDistinct-of_test : (cs : List ArgumentConfig) → are_distinct cs ≡ true → AreDistinct cs
AreDistinct-of_test [] h = tt
AreDistinct-of_test (c ∷ cs) h = (
  All-of_fresh c.definition.name cs (ground (arith, h)),
  AreDistinct-of_test cs (ground (arith, h)),
)

arguments-AreDistinct : AreDistinct arguments
unfolding arguments
arguments-AreDistinct = AreDistinct-of_test arguments refl

pub arguments-AreSingle : AreSingle arguments
unfolding arguments
arguments-AreSingle =
    (refl, (refl, (refl, (refl, (refl, (refl, (refl, (refl, (refl, (refl, (refl, tt)))))))))))

pub arguments-HasFittingDefault : All HasFittingDefault (option_list arguments)
unfolding arguments
arguments-HasFittingDefault = (tt, (tt, (tt, (tt, (tt, (tt, (tt, (tt, (tt, (tt, (tt, tt)))))))))))

-- The object holds a text under the name.
abbrev pub HasText : Object → Text → Type 0
HasText obj n = (t : Text) × (lookup n obj ≡ some (one (text t)))

-- If the arguments of the command are parsed, the object has a text under each of `name`,
-- `readPat`, `adminPat`, `output`, `owner`, `repo` and `statefulSetNs`.
pub parse_arguments-HasText :
    (truth : Text → Bool) (argv : List Text) (obj : Object)
    → parse_arguments truth argv ≡ returned obj
    → All (HasText obj) (
        codes "name"
        ∷ codes "readPat"
        ∷ codes "adminPat"
        ∷ codes "output"
        ∷ codes "owner"
        ∷ codes "repo"
        ∷ codes "statefulSetNs"
        ∷ [])
unfolding parse_arguments arguments
parse_arguments-HasText truth argv obj e = (
  has "name" "n" none (inl refl),
  (
    has "readPat" "p" none (inr (inl refl)),
    (
      has "adminPat" "a" none (inr (inr (inl refl))),
      (
        has "output" "f" (some (one (text []))) (inr (inr (inr (inl refl)))),
        (
          has "owner" "o" none (inr (inr (inr (inr (inr (inl refl)))))),
          (
            has "repo" "r" none (inr (inr (inr (inr (inr (inr (inl refl))))))),
            (
              has "statefulSetNs" "s" none
                  (inr (inr (inr (inr (inr (inr (inr (inr (inr (inl refl)))))))))),
              tt,
            ),
          ),
        ),
      ),
    ),
  ),
)
  where
    has :
        (n a : String) (d : Option Value)
        → IsIn (argument n string_kind a false d) arguments
        → HasText obj (codes n)
    has n a d i =
        parse-IsRequiredText truth arguments (some (codes "help")) argv obj
          (argument n string_kind a false d) arguments-AreSingle arguments-AreDistinct
          arguments-HasFittingDefault i (record { required = refl; of_text = refl; single = refl })
          e
