-- ===== src/Timer/Tick.antt =====
-- What one tick does, in terms of the ticks until each timer expires.
use monolinux_c_library.Prelude.{
  ℕ, zero, suc, ◌+◌, ◌-◌, ◌^◌, max, ◌≤◌, ◌<◌, ◌≡◌, refl, ap, ap₂, sym, ◌∙◌, List, [], ◌∷◌, ◌++◌,
  map, append_assoc, append-nil, length, ltb, ◌==◌, if◌then◌else◌, arith, Bool-cases, inl, inr,
}
use monolinux_c_library.Prelude.Words.{sub32}
use monolinux_c_library.Timer.Deltas.{Node, node, timer_list_insert}
use monolinux_c_library.Timer.Handler.{Handler, fire, fire_expired, decrement_head, set_list, tick}
use monolinux_c_library.Timer.Remaining.{total, remaining, insert_sorted, remaining-insert}

-- The timers at the head of a list that wait no longer, and the rest of the list.
abbrev pub expired : List Node → List ℕ
expired [] = []
expired (n ∷ ns) = if n.delta == 0 then n.timer ∷ expired ns else []

abbrev pub waiting : List Node → List Node
waiting [] = []
waiting (n ∷ ns) = if n.delta == 0 then waiting ns else n ∷ ns

-- Periodic timers are inserted again, in the order in which they expired.
abbrev pub rearm_one : (ℕ → ℕ) → ℕ → List Node → List Node
rearm_one repeats t ns = if ltb 0 (repeats t) then insert_sorted (node t (repeats t)) ns else ns

unfoldable pub rearm : (ℕ → ℕ) → List ℕ → List Node → List Node
rearm repeats [] ns = ns
rearm repeats (t ∷ ts) ns = rearm repeats ts (rearm_one repeats t ns)

-- The head of the list, if any, has ticks left.
abbrev pub IsRunning : List Node → Type 0
IsRunning [] = Unit {0}
IsRunning (n ∷ ns) = 0 < n.delta

-- A handler between two calls: no expired timer is left, and no sum of deltas wraps.
pub record IsValid (s : Handler) : Type 0 where
  pub running : IsRunning s.list
  pub total_fits : total s.list < 2 ^ 32
  pub repeats_fit : (t : ℕ) → (s.timer t).repeat_ticks < 2 ^ 32

pub total-insert :
    (t delta : ℕ) (ns : List Node)
    → delta < 2 ^ 32
    → total ns < 2 ^ 32
    → total (timer_list_insert t delta ns) ≡ max delta (total ns)
unfolding timer_list_insert
total-insert t delta [] d h = ground arith
total-insert t delta (n ∷ ns) d h = elim (Bool-cases (ltb n.delta delta)) [
  | inl p ↦
      let less : sub32 delta n.delta ≡ delta - n.delta = ground arith in
      let rest = total-insert t (sub32 delta n.delta) ns (ground arith) (omega arith) in
      ground (arith, less, rest)
  | inr p ↦ ground arith
]

expired-insert_sorted :
    (t d : ℕ) (ns : List Node) → 0 < d → expired (insert_sorted (node t d) ns) ≡ expired ns
unfolding insert_sorted
expired-insert_sorted t d [] p = ground arith
expired-insert_sorted t d (n ∷ ns) p = ground (arith, expired-insert_sorted t d ns p)

waiting-insert_sorted :
    (t d : ℕ) (ns : List Node)
    → 0 < d
    → waiting (insert_sorted (node t d) ns) ≡ insert_sorted (node t d) (waiting ns)
unfolding insert_sorted
waiting-insert_sorted t d [] p = ground arith
waiting-insert_sorted t d (n ∷ ns) p = ground (arith, waiting-insert_sorted t d ns p)

cons_zero :
    (n : Node) (ns : List Node)
    → n.delta ≡ 0
    → (expired (remaining 0 (n ∷ ns)) ≡ n.timer ∷ expired (remaining 0 ns))
      × (waiting (remaining 0 (n ∷ ns)) ≡ waiting (remaining 0 ns))
cons_zero n ns z = let same : 0 + n.delta ≡ 0 = omega arith in (rw same refl, rw same refl)

expired-remaining : (base : ℕ) (ns : List Node) → 0 < base → expired (remaining base ns) ≡ []
expired-remaining base [] h = refl
expired-remaining base (n ∷ ns) h = ground arith

waiting-remaining :
    (base : ℕ) (ns : List Node) → 0 < base → waiting (remaining base ns) ≡ remaining base ns
waiting-remaining base [] h = refl
waiting-remaining base (n ∷ ns) h = ground arith

-- What the loop of a tick leaves, started on a list with `expired` timers at its head.
pub record IsFired (repeats : ℕ → ℕ) (ns : List Node) (before after : Handler) : Type 0 where
  pub fired : after.fired ≡ before.fired ++ expired (remaining 0 ns)
  pub list :
      remaining 0 after.list ≡ rearm repeats (expired (remaining 0 ns)) (waiting (remaining 0 ns))
  pub running : IsRunning after.list
  pub total_fits : total after.list < 2 ^ 32
  pub repeats_kept : (t : ℕ) → (after.timer t).repeat_ticks ≡ repeats t

fire-repeats :
    (t r : ℕ) (rest : List Node) (s : Handler)
    → ((fire t rest s).timer r).repeat_ticks ≡ (s.timer r).repeat_ticks
unfolding fire
fire-repeats t r rest s = ground arith

fire-fired : (t : ℕ) (rest : List Node) (s : Handler) → (fire t rest s).fired ≡ s.fired ++ (t ∷ [])
unfolding fire
fire-fired t rest s = refl

module _ (repeats : ℕ → ℕ) (small : (t : ℕ) → repeats t < 2 ^ 32) where
  fire-list :
      (t : ℕ) (rest : List Node) (s : Handler)
      → total rest < 2 ^ 32
      → (s.timer t).repeat_ticks ≡ repeats t
      → (remaining 0 (fire t rest s).list ≡ rearm_one repeats t (remaining 0 rest))
        × (total (fire t rest s).list < 2 ^ 32)
  unfolding fire
  fire-list t rest s h e =
      ground (arith, small t, remaining-insert t (repeats t) rest, total-insert t (repeats t) rest)

  expired-rearm_one : (t : ℕ) (ns : List Node) → expired (rearm_one repeats t ns) ≡ expired ns
  expired-rearm_one t ns = ground (arith, expired-insert_sorted t (repeats t) ns)

  waiting-rearm_one :
      (t : ℕ) (ns : List Node) → waiting (rearm_one repeats t ns) ≡ rearm_one repeats t (waiting ns)
  waiting-rearm_one t ns = ground (arith, waiting-insert_sorted t (repeats t) ns)

  IsFired-stop :
      (n : Node) (ns : List Node) (s : Handler)
      → 0 < n.delta
      → s.list ≡ n ∷ ns
      → total (n ∷ ns) < 2 ^ 32
      → ((t : ℕ) → (s.timer t).repeat_ticks ≡ repeats t)
      → IsFired repeats (n ∷ ns) s s
  unfolding rearm
  IsFired-stop n ns s p l h r = record {
    fired = ground (arith, append-nil s.fired);
    list = ground arith;
    running = rw l p;
    total_fits = rw l h;
    repeats_kept = r;
  }

  IsFired-fire :
      (n : Node) (ns : List Node) (s after : Handler)
      → n.delta ≡ 0
      → total ns < 2 ^ 32
      → (s.timer n.timer).repeat_ticks ≡ repeats n.timer
      → IsFired repeats (fire n.timer ns s).list (fire n.timer ns s) after
      → IsFired repeats (n ∷ ns) s after
  unfolding rearm
  IsFired-fire n ns s after z h r i =
      let (e, t) = fire-list n.timer ns s h r in
      let ex : expired (remaining 0 (fire n.timer ns s).list) ≡ expired (remaining 0 ns) =
        ap expired e ∙ expired-rearm_one n.timer (remaining 0 ns) in
      let wa : waiting (remaining 0 (fire n.timer ns s).list)
          ≡ rearm_one repeats n.timer (waiting (remaining 0 ns)) =
        ap waiting e ∙ waiting-rearm_one n.timer (remaining 0 ns) in
      let (ce, cw) = cons_zero n ns z in
      record {
        fired =
            i.fired
            ∙ ap₂ ◌++◌ (fire-fired n.timer ns s) ex
            ∙ append_assoc s.fired (n.timer ∷ []) (expired (remaining 0 ns))
            ∙ ap (λ x. s.fired ++ x) (sym ce);
        list = i.list ∙ ap₂ (rearm repeats) ex wa ∙ ap₂ (rearm repeats) (sym ce) (sym cw);
        running = i.running;
        total_fits = i.total_fits;
        repeats_kept = i.repeats_kept;
      }

  fire_expired_lem :
      (fuel : ℕ) (ns : List Node) (s : Handler)
      → length (expired (remaining 0 ns)) < fuel
      → s.list ≡ ns
      → total ns < 2 ^ 32
      → ((t : ℕ) → (s.timer t).repeat_ticks ≡ repeats t)
      → IsFired repeats ns s (fire_expired fuel ns s)
  unfolding fire_expired rearm
  fire_expired_lem zero ns s f l h r = elim f [ ]
  fire_expired_lem (suc fuel) [] s f l h r = record {
    fired = sym (append-nil s.fired);
    list = rw l refl;
    running = rw l tt;
    total_fits = rw l (omega arith);
    repeats_kept = r;
  }
  fire_expired_lem (suc fuel) (n ∷ ns) s f l h r = elim (Bool-cases (n.delta == 0)) [
    | inr p ↦ rw (p) (IsFired-stop n ns s (ground arith) l h r)
    | inl p ↦
        let z : n.delta ≡ 0 = ground arith in
        let (e, t) = fire-list n.timer ns s (omega arith) (r n.timer) in
        rw p (
          IsFired-fire n ns s _ z (omega arith) (r n.timer) (
            fire_expired_lem fuel (fire n.timer ns s).list (fire n.timer ns s)
              (omega (
                arith,
                ap length (ap expired e ∙ expired-rearm_one n.timer (remaining 0 ns)),
                ap length (cons_zero n ns z).0,
              ))
              refl t (λ u. fire-repeats n.timer u ns s ∙ r u)))
  ]

-- One tick less to wait.
abbrev pub count_down : Node → Node
count_down n = node n.timer (n.delta - 1)

remaining-count_down :
    (base : ℕ) (ns : List Node) → map count_down (remaining (base + 1) ns) ≡ remaining base ns
remaining-count_down base [] = refl
remaining-count_down base (n ∷ ns) =
    let less : base + 1 + n.delta - 1 ≡ base + n.delta = omega arith in
    let more : base + 1 + n.delta ≡ base + n.delta + 1 = omega arith in
    ap₂ ◌∷◌ (ap (node n.timer) less)
      (ap (λ b. map count_down (remaining b ns)) more ∙ remaining-count_down (base + n.delta) ns)

remaining-decrement_head :
    (ns : List Node)
    → IsRunning ns
    → total ns < 2 ^ 32
    → (remaining 0 (decrement_head ns) ≡ map count_down (remaining 0 ns))
      × (total (decrement_head ns) < 2 ^ 32)
remaining-decrement_head [] r t = (refl, t)
remaining-decrement_head (n ∷ ns) r t =
    let less : sub32 n.delta 1 ≡ n.delta - 1 = omega arith in
    let d : 0 + sub32 n.delta 1 ≡ 0 + n.delta - 1 = omega arith in
    let one : 0 + n.delta ≡ 0 + sub32 n.delta 1 + 1 = omega arith in
    (
      ap₂ ◌∷◌ (ap (node n.timer) d) (
          sym (
            ap (λ b. map count_down (remaining b ns)) one
            ∙ remaining-count_down (0 + sub32 n.delta 1) ns)),
      omega arith,
    )

length-expired-le : (base : ℕ) (ns : List Node) → length (expired (remaining base ns)) ≤ length ns
length-expired-le base [] = omega arith
length-expired-le base (n ∷ ns) = ground (arith, length-expired-le (base + n.delta) ns)

-- One tick of a valid handler lets every active timer wait one tick less. Exactly the timers with
-- no ticks left fire, once each and in the order of the list; each periodic one of them is inserted
-- again with its period, the one-shot ones leave the list, and all others keep waiting. The
-- handler is valid again: the loop ends, and no expired timer is left behind.
pub tick_lem :
    (s : Handler)
    → IsValid s
    → let due = map count_down (remaining 0 s.list) in
      let repeats = λ (t : ℕ). (s.timer t).repeat_ticks in
      ((tick s).fired ≡ s.fired ++ expired due)
      × (remaining 0 (tick s).list ≡ rearm repeats (expired due) (waiting due))
      × IsValid (tick s)
unfolding tick
tick_lem s v =
    let ns = decrement_head s.list in
    let (e, t) = remaining-decrement_head s.list v.running v.total_fits in
    let i =
      fire_expired_lem (λ t. (s.timer t).repeat_ticks) v.repeats_fit (length ns + 1) ns
        (set_list s ns) (omega (arith, length-expired-le 0 ns)) refl t (λ u. refl) in
    (
      i.fired ∙ ap (λ due. s.fired ++ expired due) e,
      i.list ∙ ap (λ due. rearm (λ t. (s.timer t).repeat_ticks) (expired due) (waiting due)) e,
      record {
        running = i.running;
        total_fits = i.total_fits;
        repeats_fit = λ u. rw (i.repeats_kept u) (v.repeats_fit u);
      },
    )
