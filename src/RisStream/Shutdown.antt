-- ===== src/RisStream/Shutdown.antt =====
-- What the shutdown signal does to the relay.
use slash.Base.{
  ◌≡◌, ◌∙◌, ap, sym, subst, ◌++◌, ◌⊎◌, inl, inr, refl, true, Option, List, [], ◌∷◌, All,
}
use slash.Prefix.Cidr.{Text}
use slash.RisStream.{
  ServerMessage, Event, cancelled, record_, slept, Phase, reading, pausing, stopped, Relay,
  relay_in, relay, relay_all,
}

-- The event is a record: neither the end of the pause nor the signal.
abbrev pub IsRecord : Event → Type 0
IsRecord cancelled = ⊥
IsRecord (record_ rec) = Unit
IsRecord (slept ok) = ⊥

module _ {Json Seconds : Type 0} where
  -- The relay has broadcast and counted what the first one has, and it has ended, or it is in the
  -- last pause and nothing but records came since.
  abbrev pub IsShutDown : Relay Json Seconds → List Event → Relay Json Seconds → Type 0
  IsShutDown before since r =
      (r.sent ≡ before.sent)
      × (r.metrics ≡ before.metrics)
      × ((r.phase ≡ stopped) ⊎ ((r.phase ≡ pausing) × (r.stopping ≡ true) × All IsRecord since))

  module _ (parse : Text → Option (ServerMessage Json Seconds)) where
    stopped_stays :
        (events : List Event) (r : Relay Json Seconds)
        → r.phase ≡ stopped
        → relay_all parse events r ≡ r
    unfolding relay_all relay relay_in
    stopped_stays [] r e = refl
    stopped_stays (x ∷ rest) r e =
        let idle : relay_in parse r.phase x r ≡ r = rw e refl in
        ap (λ s. relay_all parse rest s) idle ∙ stopped_stays rest r e

    stopped-IsShutDown :
        (events since : List Event) (r : Relay Json Seconds)
        → r.phase ≡ stopped
        → IsShutDown r since (relay_all parse events r)
    stopped-IsShutDown events since r e = rw (stopped_stays events r e) (refl, refl, inl e)

    by_step :
        (rest since : List Event) (before r r' : Relay Json Seconds)
        → r ≡ r'
        → IsShutDown before since (relay_all parse rest r')
        → IsShutDown before since (relay_all parse rest r)
    by_step rest since before r r' e h =
        subst (λ s. IsShutDown before since (relay_all parse rest s)) (sym e) h

    -- The last pause.
    pausing-IsShutDown :
        (events : List Event) (r : Relay Json Seconds)
        → r.phase ≡ pausing
        → r.stopping ≡ true
        → IsShutDown r events (relay_all parse events r)
    unfolding relay_all relay relay_in
    pausing-IsShutDown [] r p s = (refl, refl, inr (p, s, tt))
    pausing-IsShutDown (cancelled ∷ rest) r p s =
        rw p (stopped-IsShutDown rest (cancelled ∷ rest) (record r { phase = stopped }) refl)
    pausing-IsShutDown (slept ok ∷ rest) r p s =
        let end : relay_in parse r.phase (slept ok) r ≡ record r { phase = stopped } =
          rw (p, s) refl in
        by_step rest (slept ok ∷ rest) r (relay_in parse r.phase (slept ok) r)
          (record r { phase = stopped }) end
          (stopped-IsShutDown rest (slept ok ∷ rest) (record r { phase = stopped }) refl)
    pausing-IsShutDown (record_ rec ∷ rest) r p s =
        let same : relay_in parse r.phase (record_ rec) r ≡ r = rw p refl in
        by_step rest (record_ rec ∷ rest) r (relay_in parse r.phase (record_ rec) r) r same
          (weaken (pausing-IsShutDown rest r p s))
      where
        weaken :
            IsShutDown r rest (relay_all parse rest r)
            → IsShutDown r (record_ rec ∷ rest) (relay_all parse rest r)
        weaken (sent, metrics, inl e) = (sent, metrics, inl e)
        weaken (sent, metrics, inr (p, s, h)) = (sent, metrics, inr (p, s, (tt, h)))

    relay_all-append :
        (before rest : List Event) (r : Relay Json Seconds)
        → relay_all parse (before ++ rest) r ≡ relay_all parse rest (relay_all parse before r)
    unfolding relay_all
    relay_all-append [] rest r = refl
    relay_all-append (e ∷ before) rest r = relay_all-append before rest (relay parse e r)

    cancelled-IsShutDown :
        (rest : List Event) (r : Relay Json Seconds)
        → IsShutDown r rest (relay_all parse (cancelled ∷ rest) r)
    unfolding relay_all relay relay_in
    cancelled-IsShutDown rest r = of_phase r.phase refl
      where
        of_phase :
            (p : Phase)
            → r.phase ≡ p
            → IsShutDown r rest (relay_all parse rest (relay_in parse r.phase cancelled r))
        of_phase reading e =
            rw e (pausing-IsShutDown rest (record r { phase = pausing; stopping = true }) refl refl)
        of_phase pausing e = rw e (stopped-IsShutDown rest rest (record r { phase = stopped }) refl)
        of_phase stopped e =
            let same : relay_in parse r.phase cancelled r ≡ r = rw e refl in
            by_step rest rest r (relay_in parse r.phase cancelled r) r same
              (stopped-IsShutDown rest rest r e)

    -- Whatever events come before and after the shutdown signal, after it the relay broadcasts and
    -- counts nothing more; and in the end the task has ended, or it is in the pause with done set,
    -- and none but records have come since the signal, which it does not take, neither the end of
    -- the pause nor the signal again.
    pub relay_all-cancelled :
        (before rest : List Event) (r : Relay Json Seconds)
        → IsShutDown
            (relay_all parse before r)
            rest
            (relay_all parse (before ++ cancelled ∷ rest) r)
    relay_all-cancelled before rest r =
        rw (relay_all-append before (cancelled ∷ rest) r)
          (cancelled-IsShutDown rest (relay_all parse before r))
