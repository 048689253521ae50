-- ===== src/SuiteScope/Publish/Outputs.antt =====
-- What a verdict and its statuses can write.
use vibe_verifier.Base.{
  ℕ, zero, suc, ◌+◌, ◌≤◌, ◌<◌, inl, inr, ap, Option-cases, ◌≡◌, ◌↔◌, refl, Bool, true, false, none,
  some, List, [], ◌∷◌, ◌++◌, arith, eqb, eqb_iff, if◌then◌else◌, All, Bool-cases,
}
use vibe_verifier.Base.Text.{Text, text, has, words, words_from, keep_word, is_space}
use vibe_verifier.Base.Text.Has.{has-append_of, has-join, has-replace_other}
use vibe_verifier.SuiteScope.Decide.{Verdict}
use vibe_verifier.SuiteScope.Publish.{one_line, report, Posts, Status, send_from, send}

lacks-keep_word :
    (c : ℕ) (word : Text) (ws : List Text)
    → has c word ≡ false
    → All (λ w. has c w ≡ false) ws
    → All (λ w. has c w ≡ false) (keep_word word ws)
lacks-keep_word c [] ws h k = k
lacks-keep_word c (x ∷ word) ws h k = (h, k)

blank_differs : (c d : ℕ) → is_space c ≡ true → is_space d ≡ false → eqb d c ≡ false
blank_differs c d b e = elim (Bool-cases (eqb d c)) [
  | inl s ↦ cc (ap is_space ((eqb_iff d c).0 s))
  | inr s ↦ s
]

-- A word of `s.split()` has no blank.
lacks-words_from :
    (c : ℕ) (word s : Text)
    → is_space c ≡ true
    → has c word ≡ false
    → All (λ w. has c w ≡ false) (words_from word s)
unfolding words_from
lacks-words_from c [] [] b h = tt
lacks-words_from c (x ∷ word) [] b h = (h, tt)
lacks-words_from c word (d ∷ s) b h = elim (Bool-cases (is_space d)) [
  | inl e ↦ rw e (lacks-keep_word c word _ h (lacks-words_from c [] s b refl))
  | inr e ↦ rw e (
      lacks-words_from c (word ++ d ∷ []) s b
        (has-append_of c word (d ∷ []) h (rw (blank_differs c d b e))))
]

-- A text that is flattened to one line has no blank but the space.
one_line-lacks :
    (c : ℕ) (s : Text) → is_space c ≡ true → has c (32 ∷ []) ≡ false → has c (one_line s) ≡ false
unfolding one_line words
one_line-lacks c s b h = has-join c (32 ∷ []) (words_from [] s) h (lacks-words_from c [] s b refl)

-- A blank that no part of the output has.
record IsForeign (c : ℕ) : Type 0 where
  blank : is_space c ≡ true
  space : has c (32 ∷ []) ≡ false
  colons : has c (text "::") ≡ false
  warning : has c (text "warning") ≡ false
  notice : has c (text "notice") ≡ false
  title : has c (text " title=Suite scope::") ≡ false
  percent : has c (text "%25") ≡ false
  truth : has c (text "not-applicable=true") ≡ false
  falsity : has c (text "not-applicable=false") ≡ false
  reason : has c (text "reason=") ≡ false

line_feed-IsForeign : IsForeign 10
unfolding text is_space
line_feed-IsForeign = record {
  blank = refl;
  space = refl;
  colons = refl;
  warning = refl;
  notice = refl;
  title = refl;
  percent = refl;
  truth = refl;
  falsity = refl;
  reason = refl;
}

carriage_return-IsForeign : IsForeign 13
unfolding text is_space
carriage_return-IsForeign = record {
  blank = refl;
  space = refl;
  colons = refl;
  warning = refl;
  notice = refl;
  title = refl;
  percent = refl;
  truth = refl;
  falsity = refl;
  reason = refl;
}

module _ (c : ℕ) (v : Verdict) (h : IsForeign c) where
  lacks_level : (b : Bool) → has c (if b then text "warning" else text "notice") ≡ false
  lacks_level true = h.warning
  lacks_level false = h.notice

  report_lacks : has c (report v).printed ≡ false
  unfolding report
  report_lacks =
      has-append_of c _ _
        (has-append_of c _ _ (has-append_of c _ _ h.colons (lacks_level v.unread)) h.title)
        (has-replace_other c 37 (text "%25") (one_line said) h.percent
          (one_line-lacks c said h.blank h.space))
    where
      said : Text
      said =
          if v.not_applicable
          then one_line v.reason
          else text "The suite runs: " ++ one_line v.reason

  truth_lacks :
      (b : Bool)
      → has c (text "not-applicable=" ++ (if b then text "true" else text "false")) ≡ false
  unfolding text
  truth_lacks true = h.truth
  truth_lacks false = h.falsity

  verdict_lacks :
      has c (text "not-applicable=" ++ (if v.not_applicable then text "true" else text "false"))
      ≡ false
  verdict_lacks = truth_lacks v.not_applicable

  reason_lacks : has c (text "reason=" ++ one_line v.reason) ≡ false
  reason_lacks = has-append_of c _ _ h.reason (one_line-lacks c v.reason h.blank h.space)

-- The line of the step output that holds the reason, and the annotation, are each one line, whatever
-- the reason holds: a changed path cannot write an output or a workflow command of its own.
pub report_one_line :
    (v : Verdict)
    → All
        (λ line. (has 10 line ≡ false) × (has 13 line ≡ false))
        ((report v).printed ∷ (report v).outputs)
unfolding report
report_one_line v = (
  (report_lacks 10 v line_feed-IsForeign, report_lacks 13 v carriage_return-IsForeign),
  (
    (verdict_lacks 10 v line_feed-IsForeign, verdict_lacks 13 v carriage_return-IsForeign),
    ((reason_lacks 10 v line_feed-IsForeign, reason_lacks 13 v carriage_return-IsForeign), tt),
  ),
)

-- The attempts that are left succeed exactly where one of them is taken.
abbrev Attempts : Posts → Status → ℕ → ℕ → Bool × ℕ → Type 0
Attempts posts status left first (taken, made) =
    (made ≤ left)
    × ((taken ≡ true) ↔ ((n : ℕ) × (first ≤ n) × (n < first + left) × (posts status n ≡ none)))

later_attempt :
    (posts : Posts) (status : Status) (first n : ℕ) {why : Text}
    → first ≤ n
    → posts status n ≡ none
    → posts status first ≡ some why
    → suc first ≤ n
later_attempt posts status first n a p e = elim (Bool-cases (eqb first n)) [
  | inl s ↦ cc (ap (posts status) ((eqb_iff first n).0 s))
  | inr s ↦ ground (arith, eqb_iff first n)
]

Attempts-step :
    (posts : Posts) (status : Status) (left first : ℕ) (later : Bool × ℕ)
    → Attempts posts status left (suc first) later
    → Attempts posts status
        (suc left)
        first
        (elim (posts status first) [ none ↦ (true, 1) | some why ↦ (later.0, suc later.1) ])
Attempts-step posts status left first later h = elim (Option-cases (posts status first)) [
  | inl e ↦ rw e (omega arith, (λ _. (first, omega arith, omega arith, e), λ _. refl))
  | inr (why, e) ↦ rw e (
    omega (arith, h.0),
    (
      λ t. let (n, a, b, p) = h.1.0 t in (n, omega arith, omega arith, p),
      λ (n, a, b, p). h.1.1 (n, later_attempt posts status first n a p e, omega arith, p),
    ),
  )
]

send_from-Attempts :
    (posts : Posts) (status : Status) (left first : ℕ)
    → Attempts posts status left first (send_from posts status left first)
unfolding send_from
send_from-Attempts posts status zero first =
    (omega arith, (λ e. cc, λ (n, a, b, e). absurd (omega arith)))
send_from-Attempts posts status (suc left) first =
    Attempts-step posts status left first (send_from posts status left (suc first))
      (send_from-Attempts posts status left (suc first))

-- GitHub is asked at most three times for a status, and `send` says that it was taken exactly where
-- one of these attempts was.
pub send-attempts :
    (posts : Posts) (status : Status)
    → ((send posts status).1 ≤ 3)
      × (((send posts status).0 ≡ true)
          ↔ ((n : ℕ) × (1 ≤ n) × (n < 1 + 3) × (posts status n ≡ none)))
unfolding send
send-attempts posts status = send_from-Attempts posts status 3 1
