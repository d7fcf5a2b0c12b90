-- ===== src/Gpu/Sweep/Search.antt =====
-- The search of `Next` for a window that can take the launch.
use native.Mathlib.Nat.{add-zero, mod-add-mod, mod-eq_of_lt}
use loadmaster.Prelude.{
  ℕ, zero, suc, ◌+◌, ◌%◌, ◌≤◌, ◌<◌, ◌≡◌, ◌⊎◌, refl, inl, inr, true, false, List, arith, leb, leb→le,
  leb→lt, subst, ap, ◌∙◌, ◌==◌, Bool-cases, length, get_or,
}
use loadmaster.Gpu.Sweep.{Window, Position, no_window, skip}

-- Every position that the search has left behind, `n` of them from `start` on.
abbrev pub TooShort : ℕ → List Window → ℕ → ℕ → Type 0
TooShort threads ws start n =
    (k : ℕ) → k < n → (get_or ws ((start + k) % length ws) no_window).words < threads

-- Where the search ends: in range, at a window that can take the launch with the cursor kept
-- only if that is the window it started from, or after as many failures as it had tries left.
pub record Ends (ws : List Window) (threads start cursor left : ℕ) (p : Position) : Type 0 where
  pub in_range : p.window < length ws
  pub cursor_kept : ((p.window ≡ start) × (p.cursor ≡ cursor)) ⊎ (p.cursor ≡ 0)
  pub fits : p.found ≡ true → threads ≤ (get_or ws p.window no_window).words
  pub none_fits : p.found ≡ false → TooShort threads ws start left

suc-ne-zero : (n : ℕ) → (suc n == 0) ≡ false
suc-ne-zero n = ground arith

TooShort-suc :
    (threads : ℕ) (ws : List Window) (start n : ℕ)
    → start < length ws
    → (get_or ws start no_window).words < threads
    → TooShort threads ws ((start + 1) % length ws) n
    → TooShort threads ws start (suc n)
TooShort-suc threads ws start n lt short rest zero h = rw (add-zero, mod-eq_of_lt lt) short
TooShort-suc threads ws start n lt short rest (suc k) h =
    subst (λ i. (get_or ws i no_window).words < threads)
      (mod-add-mod (start + 1) (length ws) k ∙ ap (λ n. n % length ws) (omega arith))
      (rest k (omega arith))

module _ (ws : List Window) (threads : ℕ) where
  Ends-found :
      (left window cursor : ℕ)
      → window < length ws
      → leb threads (get_or ws window no_window).words ≡ true
      → Ends ws threads window cursor left
          (record { window = window; cursor = cursor; found = true })
  Ends-found left window cursor lt fits = record {
    in_range = lt;
    cursor_kept = inl (refl, refl);
    fits = λ _. leb→le _ _ fits;
    none_fits = λ e. cc;
  }

  Ends-last :
      (window cursor : ℕ)
      → window < length ws
      → leb threads (get_or ws window no_window).words ≡ false
      → Ends ws threads window cursor 1 (record { window = window; cursor = cursor; found = false })
  Ends-last window cursor lt short = record {
    in_range = lt;
    cursor_kept = inl (refl, refl);
    fits = λ e. cc;
    none_fits =
        λ _. TooShort-suc threads ws window 0 lt (leb→lt _ _ short) (λ k h. absurd (omega arith));
  }

  Ends-next :
      (left window cursor : ℕ) (p : Position)
      → window < length ws
      → leb threads (get_or ws window no_window).words ≡ false
      → Ends ws threads ((window + 1) % length ws) 0 left p
      → Ends ws threads window cursor (suc left) p
  Ends-next left window cursor p lt short e = record {
    in_range = e.in_range;
    cursor_kept = inr (elim e.cursor_kept [ inl same ↦ same.1 | inr zero_there ↦ zero_there ]);
    fits = e.fits;
    none_fits =
        λ missed. TooShort-suc threads ws window left lt (leb→lt _ _ short) (e.none_fits missed);
  }

-- With as many tries as there are windows, the search stops at a window that can take the launch
-- or has seen that none can.
pub skip-Ends :
    (left : ℕ) (ws : List Window) (threads window cursor : ℕ)
    → 0 < left
    → window < length ws
    → Ends ws threads window cursor left (skip left ws threads window cursor)
unfolding skip
skip-Ends zero ws threads window cursor l h = absurd (omega arith)
skip-Ends (suc zero) ws threads window cursor l h =
    elim (Bool-cases (leb threads (get_or ws window no_window).words)) [
      | inl fits ↦ rw fits (Ends-found ws threads 1 window cursor h fits)
      | inr short ↦ rw short (Ends-last ws threads window cursor h short)
    ]
skip-Ends (suc (suc left)) ws threads window cursor l h =
    elim (Bool-cases (leb threads (get_or ws window no_window).words)) [
      | inl fits ↦ rw fits (Ends-found ws threads (suc (suc left)) window cursor h fits)
      | inr short ↦
          rw (short, suc-ne-zero left)
            (Ends-next ws threads (suc left) window cursor _ h short (
              skip-Ends (suc left) ws threads ((window + 1) % length ws) 0 (omega arith)
                (omega arith)))
    ]
