-- ===== src/Api/World.antt =====
-- What the operations of the boundary change: the database, the order service, the gate of alerts,
-- and the messages that were sent.
use auto_trade_stock_demo.Prelude.{List, ◌∷◌, [], ◌++◌, Message}
use auto_trade_stock_demo.Core.Alerts.{AlertGate}
use auto_trade_stock_demo.Orders.Service.{OrderService}
use auto_trade_stock_demo.Db.Rows.{Database}

pub record World (F D : Type 0) : Type 0 where
  pub db : Database F D
  pub service : OrderService D
  pub alerts : AlertGate
  pub sent : List (Message D)

-- `await notifier.send(text)`
unfoldable pub notify : {F D : Type 0} → World F D → Message D → World F D
notify w text = record w { sent = w.sent ++ text ∷ [] }
