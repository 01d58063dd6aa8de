-- ===== src/Sources/Client/Throttle.antt =====
-- The spacing of requests in trouveur/sources/http.py: _throttle and paced.
use trouveur.Prelude.{
  ℕ, ◌+◌, ◌-◌, Option, none, some, List, [], ◌∷◌, ltb, ◌==◌, nat_eq, list_eq, if◌then◌else◌,
}
use trouveur.Db.{Text}

-- A call of `_throttle`: the key, the client's delay, when the lock was gained, and by how much the
-- wait ran over.
pub record Turn : Type 0 where
  pub key : Text
  pub delay : ℕ
  pub now : ℕ
  pub late : ℕ

-- `_last`, with `get(host, 0.0)`
abbrev pub Clocks : Type 0
Clocks = Text → ℕ

-- when the turn ends, which is when its request may go out
unfoldable pub stamp_of : Clocks → Turn → ℕ
stamp_of last turn =
    let elapsed = turn.now - last turn.key in
    (if ltb elapsed turn.delay then turn.now + (turn.delay - elapsed) else turn.now) + turn.late

unfoldable pub throttle : Turn → Clocks → Clocks
unfolding stamp_of
throttle turn last key = if key == turn.key then stamp_of last turn else last key

unfoldable pub throttle_each : List Turn → Clocks → Clocks
unfolding throttle
throttle_each [] last = last
throttle_each (turn ∷ turns) last = throttle_each turns (throttle turn last)

-- the fields of a PoliteClient that a view of it may have of its own
pub record Client : Type 0 where
  pub delay : ℕ
  pub attempts : ℕ

abbrev pub paced : ℕ → Option ℕ → Client → Client
paced delay none client = record client { delay = delay }
paced delay (some attempts) client = record { delay = delay; attempts = attempts }
