-- ===== src/Client/Races/Logged.antt =====
-- A gRPC that keeps a log of the connections it has made and of those it was told to close; in all
-- else it is the one that it is made from.
use multi_region.Prelude.{◌≡◌, refl, ap, ◌∙◌, Option, none, some, List, [], ◌∷◌, ◌++◌, Bytes, Bool}
use multi_region.Grpc.{Grpc}

pub record Logged (W C : Type 0) : Type 0 where
  pub network : W
  pub dialled : List C
  pub closed : List C

abbrev pub log_dial : {W C : Type 0} → Logged W C → Option C × W → Option C × Logged W C
log_dial l (none, w) = (none, record l { network = w })
log_dial l (some k, w) = (some k, record l { network = w; dialled = l.dialled ++ k ∷ [] })

abbrev pub carry : {W C A : Type 0} → Logged W C → A × W → A × Logged W C
carry l (a, w) = (a, record l { network = w })

abbrev pub log_close : {W C : Type 0} → Logged W C → C → Bool × W → Bool × Logged W C
log_close l k (ok, w) = (ok, record l { network = w; closed = l.closed ++ k ∷ [] })

pub network-log_dial :
    {W C : Type 0} (l : Logged W C) (r : Option C × W) → (log_dial l r).1.network ≡ r.1
network-log_dial l (none, w) = refl
network-log_dial l (some k, w) = refl

pub sent-log_dial :
    (g : Grpc) (target : Bytes) (t : Option g.Tls) (l : Logged g.World g.Conn)
    → g.sent (log_dial l (g.new_client target t l.network)).1.network ≡ g.sent l.network
sent-log_dial g target t l =
    ap g.sent (network-log_dial l (g.new_client target t l.network))
    ∙ g.sent-new_client target t l.network

abbrev pub logged : Grpc → Grpc
logged g = record {
  World = Logged g.World g.Conn;
  Tls = g.Tls;
  Conn = g.Conn;
  UpStream = g.UpStream;
  DownStream = g.DownStream;
  Cancel = g.Cancel;
  new_client = λ target t l. log_dial l (g.new_client target t l.network);
  open_upstream = λ c id l. carry l (g.open_upstream c id l.network);
  open_downstream = λ c id f l. carry l (g.open_downstream c id f l.network);
  send = λ u env l. carry l (g.send u env l.network);
  close = λ c l. log_close l c (g.close c l.network);
  with_cancel = λ l. carry l (g.with_cancel l.network);
  cancel = λ f l. record l { network = g.cancel f l.network };
  same_stream = g.same_stream;
  same_stream_iff = g.same_stream_iff;
  sent = λ l. g.sent l.network;
  sent-send = λ u env l. g.sent-send u env l.network;
  sent-new_client = sent-log_dial g;
  sent-open_upstream = λ c id l. g.sent-open_upstream c id l.network;
  sent-close = λ c l. g.sent-close c l.network;
}
