-- ===== src/Queue/Connection.antt =====
-- internal/queue/connection.go: the connection to the broker and its channel.
use avatars.Prelude.{ℕ, ◌+◌, ◌-◌, String, ◌≡◌, ◌≢◌, none, some, arith, Error, wrap}
use avatars.Queue.Topology.{DeclareChannel, declare, until_error}

-- amqp.Dial, the connection's Channel, and the two Close methods, whose errors the program drops.
pub record Dialer (W : Type 0) : Type 0 where
  pub dial : String → W → Error × W
  pub open_channel : W → Error × W
  pub close_channel : W → W
  pub close_connection : W → W
  pub ch : DeclareChannel W

module _ {W : Type 0} (d : Dialer W) where
  topology_declared : Error → W → Error × W
  topology_declared none w = (none, w)
  topology_declared (some e) w =
      (some (wrap "declare topology" e), d.close_connection (d.close_channel w))

  opened : Error → W → Error × W
  opened (some e) w = (some (wrap "open channel" e), d.close_connection w)
  opened none w = let (e, w1) = declare d.ch w in topology_declared e w1

  dialed : Error → W → Error × W
  dialed (some e) w = (some (wrap "dial rabbitmq" e), w)
  dialed none w = let (e, w1) = d.open_channel w in opened e w1

  -- Connect: nil stands for the connection and the channel, an error for no connection.
  unfoldable pub connect : String → W → Error × W
  unfolding topology_declared opened dialed
  connect url w = let (e, w1) = d.dial url w in dialed e w1

-- Open connections and open channels.
abbrev pub Open : Type 0
Open = ℕ × ℕ

abbrev pub opening : Error → ℕ → ℕ
opening none n = n + 1
opening (some _) n = n

-- A dialer that does the same and counts what is open.
module _ {W : Type 0} (d : Dialer W) where
  abbrev lift : (W → Error × W) → W × Open → Error × (W × Open)
  lift f (w, held) = let (e, w1) = f w in (e, (w1, held))

  abbrev pub counting : Dialer (W × Open)
  counting = record {
    dial = λ url s. let (e, w1) = d.dial url s.0 in (e, (w1, (opening e s.1.0, s.1.1)));
    open_channel = λ s. let (e, w1) = d.open_channel s.0 in (e, (w1, (s.1.0, opening e s.1.1)));
    close_channel = λ s. (d.close_channel s.0, (s.1.0, s.1.1 - 1));
    close_connection = λ s. (d.close_connection s.0, (s.1.0 - 1, s.1.1));
    ch = record {
      exchange_declare = λ name kind. lift (d.ch.exchange_declare name kind);
      queue_declare = λ name args. lift (d.ch.queue_declare name args);
      queue_bind = λ queue key exchange. lift (d.ch.queue_bind queue key exchange);
    };
  }

  abbrev pub open_after : String → W → Open
  open_after url w = (connect counting url (w, (0, 0))).1.1

  -- Whatever the broker answers, Connect returns nil with one connection and one channel open, or
  -- an error with nothing left open.
  pub connect-open :
      (url : String) (w : W)
      → (((connect counting url (w, (0, 0))).0 ≡ none) → open_after url w ≡ (1, 1))
        × (((connect counting url (w, (0, 0))).0 ≢ none) → open_after url w ≡ (0, 0))
  unfolding connect declare until_error
  connect-open url w = ground arith
