-- ===== src/Replication/Pipeline/Gapless.antt =====
-- In whatever order the workers finish, no entry under the stored watermark is missing.
use native.Mathlib.Decide.{dec_le}
use goraphdb.Common.{
  ℕ, ◌^◌, ◌≤◌, ◌<◌, ◌≡◌, ◌⊎◌, inl, inr, Bool, true, List, [], ◌∷◌, ◌++◌, arith, ◌==◌, Bool-cases,
  subst,
}
use goraphdb.Replication.Tracker.{new_lsn_tracker, mem, mark_done}
use goraphdb.Replication.Tracker.Watermark.{
  IsLsn, AllLsn, IsValid, mark_done_watermark, done-mark_done,
}
use goraphdb.Replication.Pipeline.{
  Worker, idle, stopped, applying, applied, marked, Pipeline, put, start, Step, skip, receive, take,
  leave, apply_succeeds, apply_fails, mark, store, Reach, here, later,
}

-- What a worker holds is an LSN, applied if it says so, or a number at most the baseline.
abbrev pub Fits : List ℕ → ℕ → Worker → Type 0
Fits effects baseline idle = Unit
Fits effects baseline stopped = Unit
Fits effects baseline (applying lsn) = IsLsn lsn
Fits effects baseline (applied lsn) = IsLsn lsn × (mem lsn effects ≡ true)
Fits effects baseline (marked lsn) = lsn ≤ baseline

Fits-mono :
    (effects : List ℕ) (e n m : ℕ) (w : Worker) → n ≤ m → Fits effects n w → Fits (e ∷ effects) m w
Fits-mono effects e n m idle le f = tt
Fits-mono effects e n m stopped le f = tt
Fits-mono effects e n m (applying lsn) le f = f
Fits-mono effects e n m (applied lsn) le f = ground arith
Fits-mono effects e n m (marked lsn) le f = omega arith

Fits-raise : (effects : List ℕ) (n m : ℕ) (w : Worker) → n ≤ m → Fits effects n w → Fits effects m w
Fits-raise effects n m idle le f = tt
Fits-raise effects n m stopped le f = tt
Fits-raise effects n m (applying lsn) le f = f
Fits-raise effects n m (applied lsn) le f = f
Fits-raise effects n m (marked lsn) le f = omega arith

Fits-put :
    (effects : List ℕ) (n i : ℕ) (w : Worker) (f : ℕ → Worker)
    → ((j : ℕ) → Fits effects n (f j))
    → Fits effects n w
    → (j : ℕ) → Fits effects n (put f i w j)
Fits-put effects n i w f h k j = elim (Bool-cases (i == j)) [
  | inl same ↦ rw same k
  | inr elsewhere ↦ rw elsewhere (h j)
]

pub record Inv (base : ℕ) (p : Pipeline) : Type 0 where
  pub valid : IsValid p.tracker
  pub start_le : base ≤ p.tracker.baseline
  pub stored_le : p.applied_lsn ≤ p.tracker.baseline
  pub gapless : (n : ℕ) → base < n → n ≤ p.tracker.baseline → mem n p.effects ≡ true
  pub noted : (n : ℕ) → mem n p.tracker.done ≡ true → mem n p.effects ≡ true
  pub fits : (i : ℕ) → Fits p.effects p.tracker.baseline (p.workers i)
  pub queued : AllLsn p.channel

Inv-start : (base : ℕ) → base < 2 ^ 64 → Inv base (start base)
unfolding new_lsn_tracker
Inv-start base w = record {
  valid = record { word = w; lsns = tt };
  start_le = omega arith;
  stored_le = omega arith;
  gapless = λ n lo hi. absurd (omega arith);
  noted = λ n h. cc;
  fits = λ i. tt;
  queued = tt;
}

AllLsn-append : (xs : List ℕ) (n : ℕ) → AllLsn xs → IsLsn n → AllLsn (xs ++ n ∷ [])
AllLsn-append [] n h l = (l, tt)
AllLsn-append (x ∷ xs) n h l = (h.0, AllLsn-append xs n (h.1) l)

-- A step that writes neither the tracker, nor the effects, nor the watermark.
Inv-idle_step :
    {base : ℕ} (p : Pipeline) (channel : List ℕ) (i : ℕ) (w : Worker) (c : Bool)
    → Inv base p
    → AllLsn channel
    → Fits p.effects p.tracker.baseline w
    → Inv base (record p { channel = channel; workers = put p.workers i w; cancelled = c })
Inv-idle_step p channel i w c v q f = record {
  valid = v.valid;
  start_le = v.start_le;
  stored_le = v.stored_le;
  gapless = v.gapless;
  noted = v.noted;
  fits = Fits-put p.effects p.tracker.baseline i w p.workers v.fits f;
  queued = q;
}

Fits-at :
    {base : ℕ} (p : Pipeline) (i : ℕ) (w : Worker)
    → Inv base p
    → p.workers i ≡ w
    → Fits p.effects p.tracker.baseline w
Fits-at p i w v at = subst (Fits p.effects p.tracker.baseline) at (v.fits i)

module _ {base : ℕ} (p : Pipeline) (i lsn : ℕ) (v : Inv base p) where
  Inv-apply :
      p.workers i ≡ applying lsn
      → Inv base (record p { workers = put p.workers i (applied lsn); effects = lsn ∷ p.effects })
  Inv-apply at =
      let kept = λ (j : ℕ).
        Fits-mono p.effects lsn p.tracker.baseline p.tracker.baseline (p.workers j) (omega arith)
          (v.fits j) in
      record {
        valid = v.valid;
        start_le = v.start_le;
        stored_le = v.stored_le;
        gapless = λ n lo hi. ground (arith, v.gapless n lo hi);
        noted = λ n h. ground (arith, v.noted n h);
        fits =
            Fits-put (lsn ∷ p.effects) p.tracker.baseline i (applied lsn) p.workers kept
              (Fits-at p i (applying lsn) v at, ground arith);
        queued = v.queued;
      }

  known :
      (n : ℕ)
      → mem lsn p.effects ≡ true
      → (n ≡ lsn) ⊎ (mem n p.tracker.done ≡ true)
      → mem n p.effects ≡ true
  known n done (inl e) = rw e done
  known n done (inr m) = v.noted n m

  Inv-mark :
      p.workers i ≡ applied lsn
      → Inv base (record p {
        workers = put p.workers i (marked (mark_done p.tracker lsn).baseline);
        tracker = mark_done p.tracker lsn;
      })
  Inv-mark at =
      let (l, done) = Fits-at p i (applied lsn) v at in
      let (valid, grows, passed, gap, kept) = mark_done_watermark p.tracker lsn v.valid l in
      let raised = λ (j : ℕ).
        Fits-raise p.effects p.tracker.baseline (mark_done p.tracker lsn).baseline (p.workers j)
          grows (v.fits j) in
      record {
        valid = valid;
        start_le = omega (arith, grows, v.start_le);
        stored_le = omega (arith, grows, v.stored_le);
        gapless = λ n lo hi. elim (dec_le n p.tracker.baseline) [
          | yes below ↦ v.gapless n lo below
          | no above ↦ known n done (passed n (omega arith) hi)
        ];
        noted = λ n h. known n done (done-mark_done p.tracker lsn n v.valid l h);
        fits =
            Fits-put p.effects (mark_done p.tracker lsn).baseline i
              (marked (mark_done p.tracker lsn).baseline) p.workers raised (omega arith);
        queued = v.queued;
      }

  Inv-store :
      p.workers i ≡ marked lsn
      → Inv base (record p { workers = put p.workers i idle; applied_lsn = lsn })
  Inv-store at = record {
    valid = v.valid;
    start_le = v.start_le;
    stored_le = Fits-at p i (marked lsn) v at;
    gapless = v.gapless;
    noted = v.noted;
    fits = Fits-put p.effects p.tracker.baseline i idle p.workers v.fits tt;
    queued = v.queued;
  }

tail_of :
    (channel rest : List ℕ) (lsn : ℕ)
    → channel ≡ lsn ∷ rest
    → AllLsn channel
    → IsLsn lsn × AllLsn rest
tail_of channel rest lsn e h = subst AllLsn e h

-- Every step of every goroutine keeps the invariant.
pub Step-Inv : {base : ℕ} {p q : Pipeline} → Step p q → Inv base p → Inv base q
Step-Inv (skip p lsn le) v = v
Step-Inv (receive p lsn l lt room) v = record {
  valid = v.valid;
  start_le = v.start_le;
  stored_le = v.stored_le;
  gapless = v.gapless;
  noted = v.noted;
  fits = v.fits;
  queued = AllLsn-append p.channel lsn v.queued l;
}
Step-Inv (take p i lsn rest lt at e go) v =
    let (l, others) = tail_of p.channel rest lsn e v.queued in
    Inv-idle_step p rest i (applying lsn) p.cancelled v others l
Step-Inv (leave p i lsn rest lt at e stop) v =
    let (l, others) = tail_of p.channel rest lsn e v.queued in
    Inv-idle_step p rest i stopped p.cancelled v others tt
Step-Inv (apply_succeeds p i lsn at) v = Inv-apply p i lsn v at
Step-Inv (apply_fails p i lsn at) v = Inv-idle_step p p.channel i stopped true v v.queued tt
Step-Inv (mark p i lsn at) v = Inv-mark p i lsn v at
Step-Inv (store p i lsn at) v = Inv-store p i lsn v at

Reach-Inv : {base : ℕ} {p : Pipeline} → base < 2 ^ 64 → Reach base p → Inv base p
Reach-Inv {base} w here = Inv-start base w
Reach-Inv w (later r s) = Step-Inv s (Reach-Inv w r)

-- In every state that the pipeline reaches, whatever the interleaving of its workers and whichever of
-- them failed, every entry after the starting point and up to the stored watermark is applied.
pub watermark_gapless :
    {base : ℕ} {p : Pipeline}
    → base < 2 ^ 64
    → Reach base p
    → (n : ℕ) → base < n
    → n ≤ p.applied_lsn
    → mem n p.effects ≡ true
watermark_gapless w r n lo hi = let v = Reach-Inv w r in v.gapless n lo (omega (arith, v.stored_le))
