-- ===== src/Node/Handshake.antt =====
-- src/node.rs, `Handshake`: a peer identifies itself once, and in one order.
use avicoin.Prelude.{◌≡◌, ◌↔◌, refl, subst, Bool, true, false, List, [], ◌∷◌}
use avicoin.Outcome.{
  Result, ok, err, ◌>>=◌, verack_before_version, version_after_handshake, verack_after_handshake,
}

pub data Handshake : Type 0 where
  awaiting_version awaiting_verack ready : Handshake

pub data HandshakeEvent : Type 0 where
  version verack : HandshakeEvent

unfoldable pub advance : Handshake → HandshakeEvent → Result Handshake
advance awaiting_version version = ok awaiting_verack
advance awaiting_verack verack = ok ready
advance awaiting_version verack = err verack_before_version
advance _ version = err version_after_handshake
advance _ verack = err verack_after_handshake

unfoldable pub is_ready : Handshake → Bool
is_ready ready = true
is_ready _ = false

-- A peer's events, one after the other, until one is refused.
pub advance_all : Handshake → List HandshakeEvent → Result Handshake
advance_all h [] = ok h
advance_all h (e ∷ events) = do h' ← advance h e; advance_all h' events

-- The histories that a handshake accepts, and the state that each leads to.
pub data Accepted : List HandshakeEvent → Handshake → Type 0 where
  nothing_yet : Accepted [] awaiting_version
  their_version : Accepted (version ∷ []) awaiting_verack
  both : Accepted (version ∷ verack ∷ []) ready

advance_all-Accepted :
    (events : List HandshakeEvent) (h : Handshake)
    → advance_all awaiting_version events ≡ ok h
    → Accepted events h
unfolding advance_all advance
advance_all-Accepted [] h e = subst (Accepted []) (cc) nothing_yet
advance_all-Accepted (verack ∷ events) h e = cc
advance_all-Accepted (version ∷ []) h e = subst (Accepted (version ∷ [])) (cc) their_version
advance_all-Accepted (version ∷ version ∷ events) h e = cc
advance_all-Accepted (version ∷ verack ∷ []) h e =
    subst (Accepted (version ∷ verack ∷ [])) (cc) both
advance_all-Accepted (version ∷ verack ∷ version ∷ events) h e = cc
advance_all-Accepted (version ∷ verack ∷ verack ∷ events) h e = cc

Accepted-advance_all :
    {events : List HandshakeEvent} {h : Handshake}
    → Accepted events h
    → advance_all awaiting_version events ≡ ok h
unfolding advance_all advance
Accepted-advance_all nothing_yet = refl
Accepted-advance_all their_version = refl
Accepted-advance_all both = refl

-- From its first state a handshake accepts exactly three histories: none, a version, and a version
-- followed by a verack. Only the last makes the peer ready.
pub advance_all_iff :
    (events : List HandshakeEvent) (h : Handshake)
    → (advance_all awaiting_version events ≡ ok h) ↔ Accepted events h
advance_all_iff events h = (advance_all-Accepted events h, Accepted-advance_all)
