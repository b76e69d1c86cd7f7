-- ===== src/Mqtt/Connection.antt =====
-- What the client knows of its connection after any events of the library.
use industrial_edge_monitor.Base.{
  subst, ℕ, ◌+◌, ◌≡◌, refl, arith, Bool, true, false, List, [], ◌∷◌, u32,
}
use industrial_edge_monitor.Mqtt.Client.{
  Client, Event, became_connected, became_disconnected, published, other_event, failed,
  mqtt_event_handler, set_last_error, log_mqtt_error,
}

-- The events, each with whether the mutex of the error state is taken while it is handled.
unfoldable pub run : List (Bool × Event) → Client → Client
run [] c = c
run ((taken, event) ∷ later) c = run later (mqtt_event_handler taken event c)

-- Whether the last event that changes the connection makes it, or `before` if there is none.
abbrev pub online_after : Event → Bool → Bool
online_after became_connected before = true
online_after became_disconnected before = false
online_after _ before = before

unfoldable pub is_online : List (Bool × Event) → Bool → Bool
is_online [] before = before
is_online ((taken, event) ∷ later) before = is_online later (online_after event before)

abbrev pub made_by : Event → ℕ
made_by became_connected = 1
made_by _ = 0

unfoldable pub connections : List (Bool × Event) → ℕ
connections [] = 0
connections ((taken, event) ∷ later) = made_by event + connections later

-- What the client knows after events: the connection, and how often it was made.
pub record IsTracked (online : Bool) (made : ℕ) (c : Client) : Type 0 where
  pub flag : c.connected ≡ online
  pub bit : c.connected_bit ≡ online
  pub generation : c.connection_generation ≡ u32 made

handle-IsTracked :
    {online : Bool} {made : ℕ} (taken : Bool) (event : Event) (c : Client)
    → IsTracked online made c
    → IsTracked
        (online_after event online)
        (made + made_by event)
        (mqtt_event_handler taken event c)
unfolding mqtt_event_handler set_last_error log_mqtt_error
handle-IsTracked taken became_connected c t = record {
  flag = refl;
  bit = refl;
  generation = rw t.generation (omega arith);
}
handle-IsTracked taken became_disconnected c t = record {
  flag = refl;
  bit = refl;
  generation = rw t.generation (omega arith);
}
handle-IsTracked taken published c t = record {
  flag = t.flag;
  bit = t.bit;
  generation = rw t.generation (omega arith);
}
handle-IsTracked taken (failed error) c t = record {
  flag = t.flag;
  bit = t.bit;
  generation = rw t.generation (omega arith);
}
handle-IsTracked taken other_event c t = record {
  flag = t.flag;
  bit = t.bit;
  generation = rw t.generation (omega arith);
}

-- After any events, errors and lost mutexes among them, `mqtt_is_connected` and the bit that
-- `mqtt_wait_connected` waits for both tell whether the last connection or disconnection was a
-- connection, and `mqtt_connection_generation` is the number of connections so far modulo 2 ^ 32, if
-- all of this held before the events.
pub run-IsTracked :
    (events : List (Bool × Event)) {online : Bool} {made : ℕ} (c : Client)
    → IsTracked online made c
    → IsTracked (is_online events online) (made + connections events) (run events c)
unfolding run is_online connections
run-IsTracked [] {online} {made} c t = record {
  flag = t.flag;
  bit = t.bit;
  generation = rw t.generation (omega arith);
}
run-IsTracked ((taken, event) ∷ later) {online} {made} c t =
    subst
      (λ n.
        IsTracked (is_online later (online_after event online)) n
          (run later (mqtt_event_handler taken event c)))
      (omega arith)
      (run-IsTracked later (mqtt_event_handler taken event c) (handle-IsTracked taken event c t))
