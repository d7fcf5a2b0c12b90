-- ===== src/Core/Signals/Handling.antt =====
-- What the main loop makes of the signals that come in.
use loadmaster.Prelude.{
  ℕ, suc, ◌<◌, ◌≡◌, refl, ap, ◌∙◌, Bool, true, false, not, ◌&&◌, ◌||◌, List, [], ◌∷◌, map, All,
  ◌==◌, arith, Bool-cases, inl, inr, if◌then◌else◌,
}
use loadmaster.Core.Signals.{
  has, set_signal, Signalled, Handler, handle_on, handle, deal_signals, react, ignore, stop, arrive,
  main_loop, ticks_on, handlers,
}
use loadmaster.Core.Signals.Latch.{has-set, has-reset}

-- A list of signals has a signal.
abbrev pub among : ℕ → List ℕ → Bool
among n [] = false
among n (m ∷ ms) = (m == n) || among n ms

arrive-has :
    (other : ℕ) (ns : List ℕ) (s : Signalled)
    → (has other (arrive ns s).pending ≡ (among other ns || has other s.pending))
      × ((arrive ns s).running ≡ s.running)
arrive-has other [] s = (refl, refl)
arrive-has other (n ∷ ns) s =
    let next : Signalled = record s { pending = set_signal n s.pending } in
    let (rest, same) = arrive-has other ns next in
    (ground (arith, rest, has-set n other s.pending), same)

-- One handler takes its signal, and only that.
record Handled (h : Handler) (s t : Signalled) : Type 0 where
  clears :
      (other : ℕ)
      → other < 64
      → has other t.pending ≡ (not (h.signal == other) && has other s.pending)
  runs : t.running ≡ (if has h.signal s.pending then react h.reaction s.running else s.running)

handle_on-Handled :
    (b : Bool) (h : Handler) (s : Signalled)
    → has h.signal s.pending ≡ b
    → h.signal < 64
    → Handled h s (handle_on b h s)
handle_on-Handled true h s e lt = record {
  clears = λ other k. has-reset h.signal other s.pending lt k;
  runs = rw e refl;
}
handle_on-Handled false h s e lt = record {
  clears = λ other k. ground (arith, e);
  runs = rw e refl;
}

handle-Handled : (h : Handler) (s : Signalled) → h.signal < 64 → Handled h s (handle h s)
unfolding handle
handle-Handled h s lt = handle_on-Handled (has h.signal s.pending) h s refl lt

-- The handlers stand for signals of the word.
abbrev InWord : List Handler → Type 0
InWord hs = All (λ h. h.signal < 64) hs

abbrev signals_of : List Handler → List ℕ
signals_of hs = map (λ h. h.signal) hs

deal_signals-has :
    (hs : List Handler) (s : Signalled) (other : ℕ)
    → InWord hs
    → other < 64
    → has other (deal_signals hs s).pending
      ≡ (not (among other (signals_of hs)) && has other s.pending)
deal_signals-has [] s other a k = refl
deal_signals-has (h ∷ hs) s other a k =
    let first : Handled h s (handle h s) = handle-Handled h s a.0 in
    ground (arith, deal_signals-has hs (handle h s) other a.1 k, first.clears other k)

handle_on_ignored :
    (b : Bool) (n : ℕ) (s : Signalled)
    → (handle_on b (record { signal = n; reaction = ignore }) s).running ≡ s.running
handle_on_ignored true n s = refl
handle_on_ignored false n s = refl

handle_ignored :
    (n : ℕ) (s : Signalled)
    → (handle (record { signal = n; reaction = ignore }) s).running ≡ s.running
unfolding handle
handle_ignored n s = handle_on_ignored (has n s.pending) n s

main_loop-stopped :
    (hs : List Handler) (s : Signalled) (rounds : List (List ℕ))
    → s.running ≡ false
    → main_loop hs s rounds ≡ 0
unfolding main_loop
main_loop-stopped hs s [] e = refl
main_loop-stopped hs s (ns ∷ rest) e = rw e refl

module _ (sigint sigterm sigusr1 sigusr2 : ℕ)
    (numbers : All (λ n. n < 64) (sigint ∷ sigterm ∷ sigusr1 ∷ sigusr2 ∷ [])) where
  deal_signals-running :
      (s : Signalled)
      → (deal_signals (handlers sigint sigterm sigusr1 sigusr2) s).running
        ≡ (s.running && not (has sigint s.pending || has sigterm s.pending))
  deal_signals-running s =
      let h1 : Handler = record { signal = sigint; reaction = stop } in
      let h2 : Handler = record { signal = sigterm; reaction = stop } in
      let h3 : Handler = record { signal = sigusr1; reaction = ignore } in
      let h4 : Handler = record { signal = sigusr2; reaction = ignore } in
      let first : Handled h1 s (handle h1 s) = handle-Handled h1 s numbers.0 in
      let second : Handled h2 (handle h1 s) (handle h2 (handle h1 s)) =
        handle-Handled h2 (handle h1 s) numbers.1.0 in
      let third = handle_ignored sigusr1 (handle h2 (handle h1 s)) in
      let fourth = handle_ignored sigusr2 (handle h3 (handle h2 (handle h1 s))) in
      ground (arith, fourth, third, second.runs, first.runs, first.clears sigterm numbers.1.0)

  abbrev stops : List ℕ → Bool
  stops ns = among sigint ns || among sigterm ns

  -- How many rounds of signals there are up to the first that has SIGINT or SIGTERM.
  abbrev until_stop : List (List ℕ) → ℕ
  until_stop [] = 0
  until_stop (ns ∷ rest) = if stops ns then 1 else suc (until_stop rest)

  -- With SIGINT and SIGTERM not pending at the start, the main loop schedules up to and with the
  -- tick before which the first of them comes in, and then no more; with none, at every tick. The
  -- numbers of the signals are below 64.
  pub main_loop-until_stop :
      (s : Signalled) (rounds : List (List ℕ))
      → s.running ≡ true
      → has sigint s.pending ≡ false
      → has sigterm s.pending ≡ false
      → main_loop (handlers sigint sigterm sigusr1 sigusr2) s rounds ≡ until_stop rounds
  unfolding main_loop
  main_loop-until_stop s [] r i t = refl
  main_loop-until_stop s (ns ∷ rest) r i t =
      let hs = handlers sigint sigterm sigusr1 sigusr2 in
      let came = arrive ns s in
      let (int_came, same) = arrive-has sigint ns s in
      let (term_came, also) = arrive-has sigterm ns s in
      let dealt = deal_signals-running came in
      let went : main_loop hs s (ns ∷ rest) ≡ suc (main_loop hs (deal_signals hs came) rest) =
        ap (λ b. ticks_on b (main_loop hs (deal_signals hs came) rest)) r in
      went ∙ elim (Bool-cases (stops ns)) [
        | inl halt ↦
            let ends : (deal_signals hs came).running ≡ false =
              ground (arith, dealt, int_came, term_came, halt) in
            rw halt (ap suc (main_loop-stopped hs (deal_signals hs came) rest ends))
        | inr on ↦
            let goes : (deal_signals hs came).running ≡ true =
              ground (arith, dealt, int_came, term_came, on) in
            let no_int : has sigint (deal_signals hs came).pending ≡ false =
              ground (arith, deal_signals-has hs came sigint numbers numbers.0) in
            let no_term : has sigterm (deal_signals hs came).pending ≡ false =
              ground (arith, deal_signals-has hs came sigterm numbers numbers.1.0) in
            rw on (ap suc (main_loop-until_stop (deal_signals hs came) rest goes no_int no_term))
      ]
