-- ===== src/Cli/Highlight/Renderer/Scans.antt =====
-- The tracker does not panic while the bytes of a chunk are fed to it, and a chunk is cut without loss.
use channel_term.Prelude.{
  ◌-◌, ◌≤◌, ◌≡◌, refl, ap, arith, ◌&&◌, ◌||◌, some, [], ◌∷◌, ◌++◌, ◌==◌, length, Bytes, Bool-cases,
  inl, inr,
}
use channel_term.Cli.Highlight.Vt.{Tracker, can_resume}
use channel_term.Cli.Highlight.Vt.Signals.{Bounded}
use channel_term.Cli.Highlight.Vt.Safe.{feed-Good}
use channel_term.Cli.Highlight.Renderer.Steps.{
  feed_all, Scanned, with_byte, scan_end, scan, before_escape,
}

pub feed_all-Gives :
    (t : Tracker) (s : Bytes) → Bounded t → (t' : Tracker) × (feed_all t s ≡ some t') × Bounded t'
unfolding feed_all
feed_all-Gives t [] k = (t, refl, k)
feed_all-Gives t (value ∷ rest) k =
    let ((t', signal), e, good) = feed-Good t value k in
    let (t'', e', k') = feed_all-Gives t' rest good.bounded in (t'', rw (e, feed_all) e', k')

-- What is passed through, and what is left.
abbrev pub Scans : Bytes → Scanned → Type 0
Scans s r = Bounded r.vt × (r.consumed ++ r.rest ≡ s) × (length r.rest ≤ length s - 1)

pub scan-Gives :
    (t : Tracker) (s : Bytes) → Bounded t → (r : Scanned) × (scan t s ≡ some r) × Scans s r
unfolding scan
scan-Gives t [] k = (_, refl, (k, refl, omega arith))
scan-Gives t (value ∷ rest) k =
    let ((t', signal), e, good) = feed-Good t value k in
    let (r, e', h) = scan-Gives t' rest good.bounded in
    elim (Bool-cases (signal || (value == 10 && can_resume t'))) [
      | inl stops ↦
          (scan_end t' value rest, rw (e, scan) (rw stops refl), (good.bounded, refl, omega arith))
      | inr goes ↦ (
        record r { consumed = value ∷ r.consumed },
        rw (e, scan) (rw goes (ap (with_byte value) e')),
        (h.0, ap (◌∷◌ value) h.1, omega (arith, h.2)),
      )
    ]

pub before_escape-append : (s : Bytes) → (before_escape s).0 ++ (before_escape s).1 ≡ s
unfolding before_escape
before_escape-append [] = refl
before_escape-append (c ∷ cs) = elim (Bool-cases (c == 0x1b)) [
  | inl stops ↦ rw stops refl
  | inr goes ↦ rw goes (ap (◌∷◌ c) (before_escape-append cs))
]

pub before_escape-length : (s : Bytes) → length (before_escape s).1 ≤ length s
unfolding before_escape
before_escape-length [] = omega arith
before_escape-length (c ∷ cs) = elim (Bool-cases (c == 0x1b)) [
  | inl stops ↦ rw stops (omega arith)
  | inr goes ↦ rw goes (omega (arith, before_escape-length cs))
]
