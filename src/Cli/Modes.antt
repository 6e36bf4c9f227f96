-- ===== src/Cli/Modes.antt =====
-- Which arguments of src/main.cpp set the two modes and the preview.
use Prim.Native.String.{String, ◌++◌ as str_append}
use text.Mathlib.Text.{starts_with, ◌==◌ as str_eq}
use text.Mathlib.TextEquality.{eq_iff, starts_with_iff}
use text.Mathlib.TextPositions.{starts_with_of_prefix}
use text.Mathlib.TextLemmas.{append_assoc}
use mac_kinect_native.Base.{
  ℕ, ◌≡◌, inl, inr, refl, sym, ◌∙◌, Bool, true, false, ◌||◌, Option, none, some, List, [], ◌∷◌,
  arith,
}
use mac_kinect_native.Base.Tests.{if_rule, Bool-cases}
use mac_kinect_native.Base.Lists.{is_empty}
use mathlib.Core.Path.{subst}
use mac_kinect_native.Cli.Numbers.{parse_positive_int}
use mac_kinect_native.Cli.Options.{
  BackendChoice, Options, Parsed, shows_usage, options, Expected, Step, take_argument, take_option,
  take_preview, set_seconds, set_backend, parse_backend_choice, parse_from, parse, initial_options,
  drop_front,
}

abbrev pub asks_gui : String → Bool
asks_gui arg = str_eq arg "--gui"

abbrev pub asks_preview : String → Bool
asks_preview arg = str_eq arg "--preview" || starts_with arg "--preview="

-- `--list`, `--preview` or `--preview=...`.
abbrev pub asks_cli : String → Bool
asks_cli arg = str_eq arg "--list" || asks_preview arg

abbrev pub any : (String → Bool) → List String → Bool
any test [] = false
any test (arg ∷ args) = test arg || any test args

-- The options after arguments of which some ask for these.
record IsSetBy (o o1 : Options) (gui cli preview : Bool) : Type 0 where
  gui_set : o1.gui_mode ≡ o.gui_mode || gui
  cli_set : o1.cli_mode ≡ o.cli_mode || cli
  preview_set : o1.run_preview ≡ o.run_preview || preview

abbrev IsNoOptions : Parsed → Type 0
IsNoOptions (Parsed.options o) = ⊥
IsNoOptions _ = Unit

abbrev IsTracked : String → Options → Step → Type 0
IsTracked arg o (Step.stops p) = IsNoOptions p
IsTracked arg o (Step.goes_on next o1) =
    IsSetBy o o1 (asks_gui arg) (asks_cli arg) (asks_preview arg)

by_text : (P : String → Type 0) (arg text : String) → str_eq arg text ≡ true → P text → P arg
by_text P arg text e h = subst P (sym ((eq_iff arg text).0 e)) h

starts_with_dash : (arg : String) → starts_with arg "--preview=" ≡ true → starts_with arg "-" ≡ true
starts_with_dash arg e =
    let (rest, same) = (starts_with_iff arg "--preview=").0 e in
    subst (λ s. starts_with s "-" ≡ true) same
      (starts_with_of_prefix "-" (str_append "--preview=" rest)
        (str_append "-preview=" rest, sym (append_assoc "-" "-preview=" rest)))

not_both : (b : Bool) → b ≡ true → b ≡ false → ⊥
not_both b t f = ground arith

-- A text that starts with a dash is not one that does not.
other_than :
    (arg text : String)
    → starts_with text "-" ≡ true
    → starts_with arg "-" ≡ false
    → str_eq arg text ≡ false
other_than arg text dash none_there = elim (Bool-cases (str_eq arg text)) [
  | inl e ↦ absurd (
      not_both (starts_with arg "-") (by_text (λ s. starts_with s "-" ≡ true) arg text e dash)
        none_there)
  | inr e ↦ e
]

no_preview_text :
    (arg : String) → starts_with arg "-" ≡ false → starts_with arg "--preview=" ≡ false
no_preview_text arg none_there = elim (Bool-cases (starts_with arg "--preview=")) [
  | inl e ↦ absurd (not_both (starts_with arg "-") (starts_with_dash arg e) none_there)
  | inr e ↦ e
]

-- Options that are the same in these, after an argument that asks for none.
unchanged :
    (o o1 : Options) (arg : String)
    → (o1.gui_mode ≡ o.gui_mode) × (o1.cli_mode ≡ o.cli_mode) × (o1.run_preview ≡ o.run_preview)
    → str_eq arg "--gui" ≡ false
    → str_eq arg "--list" ≡ false
    → str_eq arg "--preview" ≡ false
    → starts_with arg "--preview=" ≡ false
    → IsTracked arg o (Step.goes_on Expected.an_option o1)
unchanged o o1 arg same g l p q = rw (g, l, p, q) (ground arith)

set_seconds-IsTracked :
    (message arg : String) (n : Option ℕ) (o o1 : Options)
    → IsSetBy o o1 (asks_gui arg) (asks_cli arg) (asks_preview arg)
    → IsTracked arg o (set_seconds message n o1)
unfolding set_seconds
set_seconds-IsTracked message arg none o o1 h = tt
set_seconds-IsTracked message arg (some n) o o1 h = record {
  gui_set = h.gui_set;
  cli_set = h.cli_set;
  preview_set = h.preview_set;
}

take_preview-IsTracked :
    (arg : String) (o : Options)
    → str_eq arg "--gui" ≡ false
    → str_eq arg "--list" ≡ false
    → IsTracked arg o (take_preview arg o)
unfolding take_preview
take_preview-IsTracked arg o g l =
    let on = record o { run_preview = true; cli_mode = true } in
    if_rule {A = Step} (IsTracked arg o) (str_eq arg "--preview")
      (Step.goes_on Expected.seconds_or_option on) (λ p. rw (g, l, p) (ground arith))
      (λ p.
        if_rule {A = Step} (IsTracked arg o) (starts_with arg "--preview=")
          (set_seconds arg (parse_positive_int (drop_front 10 arg)) on)
          (λ q. set_seconds-IsTracked arg arg _ o on (rw (g, l, p, q) (ground arith)))
          (λ q.
            if_rule {A = Step} (IsTracked arg o) (str_eq arg "--backend")
              (Step.goes_on Expected.a_backend o) {y = Step.goes_on Expected.an_option o}
              (λ _. unchanged o o arg (refl, refl, refl) g l p q)
              (λ _. unchanged o o arg (refl, refl, refl) g l p q)))

take_option-IsTracked : (arg : String) (o : Options) → IsTracked arg o (take_option arg o)
unfolding take_option
take_option-IsTracked arg o =
    let in_gui = record o { gui_mode = true } in
    let listing = record o { list_devices = true; cli_mode = true } in
    if_rule {A = Step} (IsTracked arg o) (str_eq arg "--help" || str_eq arg "-h")
      (Step.stops shows_usage) (λ _. tt)
      (λ _.
        if_rule {A = Step} (IsTracked arg o) (str_eq arg "--gui")
          (Step.goes_on Expected.an_option in_gui)
          (λ g.
            by_text (λ s. IsTracked s o (Step.goes_on Expected.an_option in_gui)) arg "--gui" g
              (ground arith))
          (λ g.
            if_rule {A = Step} (IsTracked arg o) (str_eq arg "--list")
              (Step.goes_on Expected.an_option listing)
              (λ l.
                by_text (λ s. IsTracked s o (Step.goes_on Expected.an_option listing)) arg "--list"
                  l (ground arith))
              (λ l. take_preview-IsTracked arg o g l)))

set_backend-IsTracked :
    (arg : String) (o : Options) → IsTracked arg o (set_backend arg (parse_backend_choice arg) o)
unfolding set_backend parse_backend_choice
set_backend-IsTracked arg o =
    let sets = λ (r : Option BackendChoice) (s : String). IsTracked s o (set_backend s r o) in
    let named =
      λ (b : BackendChoice) (text : String) (e : str_eq arg text ≡ true)
          (h : IsTracked text o (Step.goes_on Expected.an_option (record o { backend = b }))).
        by_text (sets (some b)) arg text e h in
    if_rule {A = Option BackendChoice} (λ r. sets r arg) (str_eq arg "auto")
      (some BackendChoice.auto) (λ e. named BackendChoice.auto "auto" e (ground arith))
      (λ _.
        if_rule {A = Option BackendChoice} (λ r. sets r arg) (str_eq arg "v1")
          (some BackendChoice.only_v1) (λ e. named BackendChoice.only_v1 "v1" e (ground arith))
          (λ _.
            if_rule {A = Option BackendChoice} (λ r. sets r arg) (str_eq arg "v2")
              (some BackendChoice.only_v2) {y = none}
              (λ e. named BackendChoice.only_v2 "v2" e (ground arith)) (λ _. tt)))

take_argument-IsTracked :
    (e : Expected) (arg : String) (o : Options) → IsTracked arg o (take_argument e arg o)
unfolding take_argument
take_argument-IsTracked Expected.an_option arg o = take_option-IsTracked arg o
take_argument-IsTracked Expected.seconds_or_option arg o =
    if_rule {A = Step} (IsTracked arg o) (starts_with arg "-") (take_option arg o)
      (λ _. take_option-IsTracked arg o)
      (λ e.
        let same =
          unchanged o o arg (refl, refl, refl) (other_than arg "--gui" refl e)
            (other_than arg "--list" refl e) (other_than arg "--preview" refl e)
            (no_preview_text arg e) in
        set_seconds-IsTracked arg arg (parse_positive_int arg) o o same)
take_argument-IsTracked Expected.a_backend arg o = set_backend-IsTracked arg o

-- The options that a result carries, after the arguments.
abbrev AreTracked : List String → Options → Parsed → Type 0
AreTracked args o (Parsed.options o1) =
    IsSetBy o o1 (any asks_gui args) (any asks_cli args) (any asks_preview args)
AreTracked args o _ = Unit

IsSetBy-then :
    {o o1 o2 : Options} {g h c d p q : Bool}
    → IsSetBy o o1 g c p
    → IsSetBy o1 o2 h d q
    → IsSetBy o o2 (g || h) (c || d) (p || q)
IsSetBy-then first second = record {
  gui_set = then_set _ _ _ _ _ first.gui_set second.gui_set;
  cli_set = then_set _ _ _ _ _ first.cli_set second.cli_set;
  preview_set = then_set _ _ _ _ _ first.preview_set second.preview_set;
}
  where
    then_set : (a b c x y : Bool) → b ≡ a || x → c ≡ b || y → c ≡ a || (x || y)
    then_set a b c x y e1 e2 = ground arith

parse_from-AreTracked :
    (e : Expected) (args : List String) (o : Options) → AreTracked args o (parse_from e args o)
unfolding parse_from
parse_from-AreTracked Expected.a_backend [] o = tt
parse_from-AreTracked Expected.an_option [] o = ground arith
parse_from-AreTracked Expected.seconds_or_option [] o = ground arith
parse_from-AreTracked e (arg ∷ args) o =
    after (take_argument e arg o) (take_argument-IsTracked e arg o)
      (λ e1 o1. parse_from-AreTracked e1 args o1)
  where
    stopped : (p : Parsed) → IsNoOptions p → AreTracked (arg ∷ args) o p
    stopped (Parsed.options o1) h = absurd h
    stopped _ h = tt

    gone_on :
        (o1 : Options) (p : Parsed)
        → IsSetBy o o1 (asks_gui arg) (asks_cli arg) (asks_preview arg)
        → AreTracked args o1 p
        → AreTracked (arg ∷ args) o p
    gone_on o1 (Parsed.options o2) first rest = IsSetBy-then first rest
    gone_on o1 _ first rest = tt

    after :
        (s : Step)
        → IsTracked arg o s
        → ((e1 : Expected) (o1 : Options) → AreTracked args o1 (parse_from e1 args o1))
        → AreTracked
            (arg ∷ args)
            o
            (elim s [ Step.stops parsed ↦ parsed | Step.goes_on next o1 ↦ parse_from next args o1 ])
    after (Step.stops p) h rest = stopped p h
    after (Step.goes_on next o1) h rest = gone_on o1 (parse_from next args o1) h (rest next o1)

-- What accepted arguments come to: the modes and whether there is a preview.
pub record HasModes (args : List String) (o : Options) : Type 0 where
  pub gui : o.gui_mode ≡ is_empty args || any asks_gui args
  pub cli : o.cli_mode ≡ any asks_cli args
  pub preview : o.run_preview ≡ any asks_preview args

pub parse-HasModes : (args : List String) {o : Options} → parse args ≡ options o → HasModes args o
unfolding parse initial_options
parse-HasModes args {o} e =
    let tracked =
      subst (AreTracked args (initial_options args)) e
        (parse_from-AreTracked Expected.an_option args (initial_options args)) in
    record {
      gui = tracked.gui_set ∙ starts args;
      cli = tracked.cli_set;
      preview = tracked.preview_set;
    }
  where
    starts :
        (args : List String)
        → (initial_options args).gui_mode || any asks_gui args ≡ is_empty args || any asks_gui args
    starts [] = refl
    starts (arg ∷ args) = refl
