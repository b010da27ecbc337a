-- ===== src/World/State.antt =====
-- The shared state, and the socket messages of src/events/events.gateway.ts and the services.
use coupang_eats_backend_v.Base.{ℕ, ℤ, String, Option, List}
use coupang_eats_backend_v.Entity.{
  User, Category, Restaurant, Dish, Order, OrderStatus, Payment, Review,
}
use coupang_eats_backend_v.Packages.{Packages}

pub data Event : Type 0 where
  -- order id, restaurant id, total
  new_pending_order : String → String → Option ℤ → Event
  -- order id, status, driver id
  order_update : String → OrderStatus → Option String → Event
  -- order id, restaurant name, pickup address
  new_cooked_order : String → String → String → Event

pub data Message : Type 0 where
  -- `server.to(room).emit`
  to_room : String → Event → Message
  -- `server.emit`
  to_all : Event → Message

module _ (p : Packages) where
  pub record Database : Type 0 where
    pub users : p.Table User
    pub categories : p.Table Category
    pub restaurants : p.Table Restaurant
    pub dishes : p.Table Dish
    pub orders : p.Table Order
    pub payments : p.Table Payment
    pub reviews : p.Table Review

  pub record World : Type 0 where
    pub db : Database
    pub open db use *
    -- how many UUIDs were drawn
    pub fresh : ℕ
    pub emitted : List Message
    -- `runOnTransactionCommit`
    pub on_commit : List Message
