-- ===== src/Client/OneShot.antt =====
-- client/client.py: the calls over a connection of their own. What the connection and the call come to
-- are arguments; `closed` holds the connections that were closed.
use terok_clearance.Common.{ℕ, String, Bool, List, ◌∷◌, Result, ok, raise}
use terok_clearance.Client.Connection.{Failure}

-- `_one_shot` around one call: a connection that opened is closed, however the call ends.
unfoldable pub one_shot :
    {A : Type 0} → Result Failure ℕ → Result Failure A → List ℕ → List ℕ × Result Failure A
one_shot (raise e) reply closed = (closed, raise e)
one_shot (ok n) reply closed = (n ∷ closed, reply)

-- `set_container_mute`, with what the hub replies to a container and a state.
unfoldable pub set_container_mute :
    (String → Bool → Result Failure Bool)
    → Result Failure ℕ
    → String
    → Bool
    → List ℕ
    → List ℕ × Result Failure Bool
unfolding one_shot
set_container_mute hub connection container muted closed =
    one_shot connection (hub container muted) closed

-- `container_mutes`: the set of the listed containers.
unfoldable pub container_mutes :
    Result Failure (List String) → Result Failure ℕ → List ℕ → List ℕ × Result Failure (List String)
unfolding one_shot
container_mutes reply connection closed = one_shot connection reply closed
