-- ===== src/Core/Conversation/History.antt =====
-- The history grows at its end, and its version counts the turns.
use mathlib.Core.List.{append-nil, append_assoc}
use rasp_api_gravity.Base.{◌%◌, ◌^◌, ◌≡◌, Bool, List, [], ◌∷◌, ◌++◌, length, length-append, arith}
use rasp_api_gravity.Core.Conversation.{
  CanonicalTurn, Conversation, append_turn, turn_messages, iter_messages,
}

module _ {T : Type 0} where
  turn_messages-append :
      (ts : List (CanonicalTurn T)) (t : CanonicalTurn T)
      → turn_messages (ts ++ (t ∷ [])) ≡ turn_messages ts ++ (t.request ++ t.response)
  unfolding turn_messages
  turn_messages-append [] t = rw append-nil
  turn_messages-append (u ∷ ts) t = simp (turn_messages-append ts t, append_assoc)

  -- A turn adds its request and then its response to the messages, behind all others.
  pub iter_messages-append_turn :
      (c : Conversation T) (t : CanonicalTurn T) (system : Bool)
      → iter_messages (append_turn c t) system ≡ iter_messages c system ++ (t.request ++ t.response)
  unfolding iter_messages append_turn
  iter_messages-append_turn c t system = simp (turn_messages-append c.turns t, append_assoc)

  -- The version is the number of turns, modulo 2^64.
  abbrev pub IsVersioned : Conversation T → Type 0
  IsVersioned c = c.history_version ≡ length c.turns % 2 ^ 64

  -- A turn keeps the history's version equal to the number of its turns, on 64 bits.
  pub append_turn-IsVersioned :
      (c : Conversation T) (t : CanonicalTurn T) → IsVersioned c → IsVersioned (append_turn c t)
  unfolding append_turn
  append_turn-IsVersioned c t h = omega (arith, length-append c.turns (t ∷ []))
