-- ===== src/Command/Find/Ends.antt =====
-- How the command find-features ends, and which hosts it prints.
use mathlib.Core.Path.{subst}
use nameq.Base.{
  ◌↔◌, ◌≡◌, ◌≢◌, refl, sym, ap, ◌∙◌, ◌⊎◌, inl, inr, Bool, true, false, not, Option, none, some,
  List, [], ◌∷◌, arith, In, Option-cases, Bool-cases,
}
use nameq.Base.Int.{ℤ, pos, negsuc, ltb_ℤ}
use nameq.Base.Text.{Text, Bytes, Text-discrete}
use nameq.Base.Map.{lookup}
use nameq.Base.Run.{Run, returns, Run-cases}
use nameq.Find.{
  StringOrderMap, Choice, feature, closed, booted, timed_out, by_default, Finder, new_finder, empty,
  array, take_feature, find_loop, last, print_entries,
}
use nameq.Find.Loop.{StaysOpen, find_loop-prints}
use nameq.Find.Hosts.{has, present, find_loop-present, In-array, In-last, empty-has}
use nameq.Command.{Exit, usage, failed, succeeded}
use nameq.Command.Find.{Flags, infinite, duration_of, has_none, after_loop, find_command}

-- Without a timer the loop does not time out.
find_loop-waits :
    (args : List Text) (string_of : Bytes → Text) (choices : List Choice) (finder : Finder)
    → finder.has_timer ≡ false
    → find_loop args string_of choices finder ≢ some none
unfolding find_loop take_feature
find_loop-waits args string_of [] finder h e = absurd (ground arith)
find_loop-waits args string_of (feature f ∷ rest) finder h e =
    find_loop-waits args string_of rest (take_feature args string_of f finder) (ground arith) e
find_loop-waits args string_of (closed ∷ rest) finder h e = absurd (ground arith)
find_loop-waits args string_of (booted ∷ rest) finder h e = elim (Bool-cases finder.booting) [
  | inl b ↦ find_loop-waits args string_of rest (record finder { booting = false }) h (ground arith)
  | inr b ↦ absurd (ground arith)
]
find_loop-waits args string_of (timed_out ∷ rest) finder h e = absurd (ground arith)
find_loop-waits args string_of (by_default ∷ rest) finder h e = absurd (ground arith)

module _ (args : List Text) (string_of : Bytes → Text) (choices : List Choice) (single : Bool) where
  -- There are lines, each is a host that is present at the end of the loop, and they are all the
  -- hosts that are, or there is one line and a single one was asked for.
  pub record PrintsPresent (lines : List Text) : Type 0 where
    pub printed : lines ≢ []
    pub are_present : (h : Text) → In h lines → present args string_of h choices false ≡ true
    pub complete :
        ((single ≡ false)
          × ((h : Text) → present args string_of h choices false ≡ true → In h lines))
        ⊎ ((single ≡ true) × (h : Text) × (lines ≡ h ∷ []))

  module _ (timer : Bool) (som : StringOrderMap)
      (ran : find_loop args string_of choices (new_finder timer) ≡ some (some som)) where
    has-present : (h : Text) → has h som ≡ present args string_of h choices false
    unfolding lookup
    has-present h = find_loop-present args string_of h choices (new_finder timer) som ran

    array-present : (h : Text) → In h (array som) ↔ (present args string_of h choices false ≡ true)
    array-present h =
        let (there, back) = In-array h som in
        (λ i. sym (has-present h) ∙ there i, λ e. back (has-present h ∙ e))

    prints :
        (lines : List Text)
        → empty som ≡ false
        → print_entries single (some som) ≡ returns lines
        → PrintsPresent lines
    unfolding print_entries
    prints lines full e = elim (Bool-cases single) [
      | inr all ↦
          let same : array som ≡ lines = ground arith in
          let (h, there) = empty-has som full in
          subst PrintsPresent same (record {
            printed = λ p. subst (In h) p ((In-array h som).1 there);
            are_present = λ k i. (array-present k).0 i;
            complete = inl (all, λ k q. (array-present k).1 q);
          })
      | inl one ↦ elim (Run-cases (last (array som))) [
        | inl f ↦ absurd (ground arith)
        | inr (h, f) ↦
            let same : h ∷ [] ≡ lines = ground arith in
            subst PrintsPresent same (record {
              printed = λ p. absurd (ground arith);
              are_present = λ k i. elim i [
                | inl q ↦
                    subst (λ (z : Text). present args string_of z choices false ≡ true) q
                      ((array-present h).0 (In-last (array som) h f))
                | inr q ↦ elim q [ ]
              ];
              complete = inr (one, h, refl);
            })
      ]
    ]

module _ (parse_duration : Text → Option ℤ) (monitor_fails : Text → Bool) (string_of : Bytes → Text)
    (flags : Flags) (args : List Text) (choices : List Choice) where
  -- The three ends of the command.
  abbrev pub Ends : Exit → List Text → Type 0
  Ends e lines =
      ((e ≢ succeeded) × (lines ≡ []))
      ⊎ (((e ≡ succeeded) × (flags.timeout ≢ infinite) × (lines ≡ []))
          ⊎ ((e ≡ succeeded) × PrintsPresent args string_of choices flags.single lines))

  after_loop-Ends :
      (timer : Bool) (result : Run (Exit × List Text))
      → (flags.timeout ≡ infinite → timer ≡ false)
      → StaysOpen choices
      → after_loop flags.single (find_loop args string_of choices (new_finder timer)) ≡ some result
      → (e : Exit) × (lines : List Text) × (result ≡ returns (e, lines)) × Ends e lines
  after_loop-Ends timer result untimed stays e =
      elim (Option-cases (find_loop args string_of choices (new_finder timer))) [
        | inl f ↦ absurd (ground arith)
        | inr (r, f) ↦
            let ((hosts, made), found) =
              find_loop-prints args string_of timer choices flags.single r stays f in
            elim found [
              | inl q ↦ (
                succeeded,
                [],
                unfold print_entries in ground arith,
                inr (
                    inl (
                      refl,
                      λ p.
                          find_loop-waits args string_of choices (new_finder timer) (untimed p)
                            (f ∙ ap some q),
                      refl,
                    )),
              )
              | inr (som, q, full) ↦ (
                succeeded,
                hosts,
                ground arith,
                inr (
                    inr (
                      refl,
                      prints args string_of choices flags.single timer som (f ∙ ap some q) hosts
                          full (sym (ap (print_entries flags.single) q) ∙ made),
                    )),
              )
            ]
      ]

  no_timer :
      (d : ℤ)
      → duration_of parse_duration flags.timeout ≡ some d
      → flags.timeout ≡ infinite
      → not (ltb_ℤ d (pos 0)) ≡ false
  no_timer d f p = elim (Text-discrete flags.timeout infinite) [
    | yes q ↦
        let minus_one : negsuc 0 ≡ d = ground arith in
        subst (λ (z : ℤ). not (ltb_ℤ z (pos 0)) ≡ false) minus_one refl
    | no q ↦ absurd (q p)
  ]

  -- While the monitor's channel stays open, the command ends without a panic, and in one of three ways:
  -- it does not succeed and prints nothing, as where the duration is not one, no name is given, or the
  -- monitor cannot be made; it times out and prints nothing, which it does not if the timeout is
  -- infinite; or it prints hosts, each of which is present at the end, as the last feature of the names
  -- that came from it has data, whichever of the names it is of, and these are all such hosts, or there
  -- is one where a single one is asked for.
  pub find_command-Ends :
      (result : Run (Exit × List Text))
      → StaysOpen choices
      → find_command parse_duration monitor_fails string_of flags args choices ≡ some result
      → (e : Exit) × (lines : List Text) × (result ≡ returns (e, lines)) × Ends e lines
  unfolding find_command
  find_command-Ends result stays e =
      elim (Option-cases (duration_of parse_duration flags.timeout)) [
        | inl f ↦ (failed, [], ground arith, inl (λ p. absurd (ground arith), refl))
        | inr (d, f) ↦ elim (Bool-cases (has_none args)) [
          | inl g ↦ (usage, [], ground arith, inl (λ p. absurd (ground arith), refl))
          | inr g ↦ elim (Bool-cases (monitor_fails flags.state_dir)) [
            | inl k ↦ (failed, [], ground arith, inl (λ p. absurd (ground arith), refl))
            | inr k ↦
                after_loop-Ends (not (ltb_ℤ d (pos 0))) result (λ p. no_timer d f p) stays
                  (ground arith)
          ]
        ]
      ]
