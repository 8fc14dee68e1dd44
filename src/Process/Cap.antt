-- ===== src/Process/Cap.antt =====
-- The cap on the output of a process, and when the waiting ends.
use mathlib.Core.List.{append-nil, append_assoc}
use agent_bench_x.Prelude.{
  ℕ, zero, suc, ◌+◌, ◌*◌, ◌-◌, ◌≤◌, ◌≡◌, ap, sym, ◌⊎◌, inl, inr, Bool-cases, Option-cases, min,
  refl, Bool, true, false, some, List, [], ◌∷◌, ◌++◌, arith, ltb, leb, length, length-append,
  String,
}
use agent_bench_x.Models.{Moment}
use agent_bench_x.Evaluator.{Outcome}
use agent_bench_x.Process.{
  take, Buffer, no_bytes, drain_chunk, drain, Poll, wait, text_of, outcome_of, run, timeout_expired,
  returns,
}

-- All that was written.
abbrev pub joined : List (List ℕ) → List ℕ
joined [] = []
joined (chunk ∷ chunks) = chunk ++ joined chunks

take-append {ℓ} :
    {A : Type ℓ} (n : ℕ) (xs ys : List A) → take n (xs ++ ys) ≡ take n xs ++ take (n - length xs) ys
unfolding take
take-append zero [] ys = refl
take-append zero (x ∷ xs) ys =
    let none_left : 0 - suc (length xs) ≡ 0 = omega arith in rw none_left refl
take-append (suc n) [] ys = let all : suc n - 0 ≡ suc n = omega arith in rw all refl
take-append (suc n) (x ∷ xs) ys =
    let same : suc n - suc (length xs) ≡ n - length xs = omega arith in
    rw same (ap (λ t. x ∷ t) (take-append n xs ys))

length-take {ℓ} : {A : Type ℓ} (n : ℕ) (xs : List A) → length (take n xs) ≡ min n (length xs)
unfolding take
length-take zero xs = omega arith
length-take (suc n) [] = omega arith
length-take (suc n) (x ∷ xs) = omega (arith, length-take n xs)

take-none : (n : ℕ) → ◌≡◌ {A = List ℕ} [] (take n [])
unfolding take
take-none zero = refl
take-none (suc n) = refl

-- A buffer that holds what fits of all that was written.
abbrev IsCapped : ℕ → List ℕ → Buffer → Type 0
IsCapped limit written b =
    (b.bytes ≡ take limit written) × (b.truncated ≡ ltb limit (length written))

drain_chunk-IsCapped :
    (limit : ℕ) (written chunk : List ℕ) (b : Buffer)
    → IsCapped limit written b
    → IsCapped limit (written ++ chunk) (drain_chunk limit b chunk)
unfolding drain_chunk
drain_chunk-IsCapped limit written chunk b (bytes, truncated) =
    let room : limit - length b.bytes ≡ limit - length written =
      rw bytes (omega (arith, length-take limit written)) in
    (
      rw (room, bytes) (sym (take-append limit written chunk)),
      ground (arith, room, truncated, length-append written chunk),
    )

drain-IsCapped :
    (limit : ℕ) (written : List ℕ) (chunks : List (List ℕ)) (b : Buffer)
    → IsCapped limit written b
    → IsCapped limit (written ++ joined chunks) (drain limit b chunks)
unfolding drain
drain-IsCapped limit written [] b c = rw (append-nil written) c
drain-IsCapped limit written (chunk ∷ chunks) b c =
    rw (sym (append_assoc written chunk (joined chunks))) (
      drain-IsCapped limit (written ++ chunk) chunks (drain_chunk limit b chunk)
        (drain_chunk-IsCapped limit written chunk b c))

-- However the output arrives in chunks, a pipe's buffer ends as the first `limit` bytes of all that
-- was written, and its flag says whether there was more.
pub drain-take :
    (limit : ℕ) (chunks : List (List ℕ))
    → ((drain limit no_bytes chunks).bytes ≡ take limit (joined chunks))
      × ((drain limit no_bytes chunks).truncated ≡ ltb limit (length (joined chunks)))
unfolding take
drain-take limit chunks = drain-IsCapped limit [] chunks no_bytes (take-none limit, ground arith)

-- The rounds of the loop from round `k` on are at least 50 ms apart, as `time.sleep(0.05)` has it.
abbrev pub AreSpaced : ℕ → List Poll → Type 0
AreSpaced k [] = Unit {0}
AreSpaced k (p ∷ polls) = (k * 50000 ≤ p.elapsed) × AreSpaced (suc k) polls

wait-stops :
    (timeout : Moment) (p : Poll) (polls : List Poll)
    → (p.exited ≡ true) ⊎ (timeout ≤ p.elapsed)
    → (flags : Bool × Bool) × (wait timeout (p ∷ polls) ≡ some flags)
unfolding wait
wait-stops timeout p polls (inl over) = ((false, false), rw over refl)
wait-stops timeout p polls (inr late) = elim (Bool-cases p.exited) [
  | inl over ↦ ((false, false), rw over refl)
  | inr runs ↦
      let due : leb timeout p.elapsed ≡ true = ground arith in ((true, p.cancel), ground arith)
]

wait_ends :
    (timeout : Moment) (k : ℕ) (p : Poll) (polls : List Poll)
    → AreSpaced k (p ∷ polls)
    → timeout ≤ (k + length polls) * 50000
    → (flags : Bool × Bool) × (wait timeout (p ∷ polls) ≡ some flags)
unfolding wait
wait_ends timeout k p [] (spaced, rest) enough =
    wait-stops timeout p [] (inr (omega (arith, spaced, enough)))
wait_ends timeout k p (q ∷ polls) (spaced, rest) enough =
    elim (Option-cases (wait timeout (p ∷ q ∷ polls))) [
      | inr found ↦ found
      | inl none_yet ↦
          let (flags, e) = wait_ends timeout (suc k) q polls rest (omega (arith, enough)) in
          absurd (ground arith)
    ]

-- A run ends. Its loop, whose rounds are at least 50 ms apart, does not outlive the timeout: with as
-- many rounds as the timeout has 50 ms, and one more, it is over, whatever the process does. Then the
-- run raises `TimeoutExpired` if the process is still there five seconds after it was killed. Otherwise
-- it returns an outcome whose two texts are those of the first `limit` bytes that each pipe carried,
-- with a note where there was more.
pub run_ends :
    (decode : List ℕ → String) (limit : ℕ) (timeout : Moment) (exit_code : ℕ) (is_reaped : Bool)
    (p : Poll) (polls : List Poll) (out error : List (List ℕ))
    → AreSpaced 0 (p ∷ polls)
    → timeout ≤ length polls * 50000
    → ((is_reaped ≡ false)
        × (run decode limit timeout exit_code is_reaped (p ∷ polls) out error ≡ timeout_expired))
      ⊎ ((is_reaped ≡ true)
          × ((o : Outcome) × (run decode limit timeout exit_code is_reaped (p ∷ polls) out error
                ≡ returns o)
              × (o.stdout
                  ≡ text_of decode (record {
                    bytes = take limit (joined out);
                    truncated = ltb limit (length (joined out));
                  }))
              × (o.stderr
                  ≡ text_of decode (record {
                    bytes = take limit (joined error);
                    truncated = ltb limit (length (joined error));
                  }))))
unfolding run
run_ends decode limit timeout exit_code false p polls out error spaced enough =
    let (flags, e) = wait_ends timeout 0 p polls spaced (omega (arith, enough)) in
    inl (
      refl,
      ap (outcome_of decode exit_code false (drain limit no_bytes out) (drain limit no_bytes error))
          e,
    )
run_ends decode limit timeout exit_code true p polls out error spaced enough =
    let (flags, e) = wait_ends timeout 0 p polls spaced (omega (arith, enough)) in
    let (bytes, truncated) = drain-take limit out in
    let (bytes', truncated') = drain-take limit error in
    let o : Outcome = record {
      exit_code = exit_code;
      stdout = text_of decode (drain limit no_bytes out);
      stderr = text_of decode (drain limit no_bytes error);
      timed_out = flags.0;
      cancelled = flags.1;
    } in
    inr (
      refl,
      (
        o,
        ap
            (outcome_of decode exit_code true (drain limit no_bytes out)
              (drain limit no_bytes error))
            e,
        rw (bytes, truncated) refl,
        rw (bytes', truncated') refl,
      ),
    )
