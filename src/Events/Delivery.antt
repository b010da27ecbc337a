-- ===== src/Events/Delivery.antt =====
-- Which sockets hear of an order and of a position.
use package.text.Mathlib.TextLemmas.{append_assoc}
use coupang_eats_backend_v.Base.{
  String, ◌≡◌, ◌≢◌, refl, sym, ap, ◌∙◌, true, false, ◌&&◌, ◌||◌, List, [], ◌∷◌, ◌++◌, ◌==◌, ◌<>◌,
  Memᴰ, none, some, some_inj, eq_refl, ==-false,
}
use coupang_eats_backend_v.Http.{ok}
use coupang_eats_backend_v.Entity.{
  User, Order, Restaurant, order_entity, order_item_entity, dish_entity, restaurant_entity,
}
use coupang_eats_backend_v.Packages.{Packages, PackageLaws}
use coupang_eats_backend_v.World.{
  World, Message, to_room, new_pending_order, Transactional, TransactionalLaws,
}
use coupang_eats_backend_v.Orders.Dto.{CreateOrderDto}
use coupang_eats_backend_v.Orders.Service.{create_order}
use coupang_eats_backend_v.Orders.PlaceOutcome.{create_order-Placed}
use coupang_eats_backend_v.Events.Gateway.{
  Rooms, is_in, handle_join_user_room, handle_join_order_room, hears, DriverLocation,
  handle_driver_location, receives,
}

last : (ms ns : List Message) (m : Message) → Memᴰ m (ms ++ (ns ++ (m ∷ [])))
last [] [] m = Memᴰ.head refl
last [] (n ∷ ns) m = Memᴰ.tail (last [] ns m)
last (x ∷ ms) ns m = Memᴰ.tail (last ms ns m)

-- the room that `joinUserRoom` names for an owner
owner_room : (id : String) → "Owner" <> (":" <> id) ≡ "Owner:" <> id
owner_room id = sym (append_assoc "Owner" ":" id)

module _ (p : Packages) (t : Transactional p) (transactions : TransactionalLaws p t)
    (orders : PackageLaws p order_entity) (items : PackageLaws p order_item_entity)
    (dishes : PackageLaws p dish_entity) (restaurants : PackageLaws p restaurant_entity) where
  -- the message about an order that a socket hears
  pub record Told (rooms : Rooms) (client : String) (o : Order) (w : World p) : Type 0 where
    pub message : Message
    pub restaurant_id : String
    pub sent : Memᴰ message w.emitted
    pub about :
        (room : String) × (message ≡ to_room room (new_pending_order o.id restaurant_id o.total))
    pub heard : hears rooms message client ≡ true

  -- what the owner is sent
  abbrev notice_of : Restaurant → Order → Message
  notice_of r o = to_room ("Owner:" <> r.owner_id) (new_pending_order o.id r.id o.total)

  -- If `createOrder` returns for a restaurant that exists, then a socket that has joined the user
  -- room with the role Owner and the id of its owner hears a message that names the new order,
  -- whoever joined before.
  pub create_order-Told :
      (customer : User) (dto : CreateOrderDto) (w w' : World p) (o : Order) (r : Restaurant)
      (client : String) (rooms : Rooms)
      → p.row dto.restaurant_id w.restaurants ≡ some r
      → create_order p t customer dto w ≡ (ok o, w')
      → Told
          (handle_join_user_room client (record { user_id = r.owner_id; role = "Owner" }) rooms)
          client
          o
          w'
  unfolding handle_join_user_room hears
  create_order-Told customer dto w w' o r client rooms found h =
      let d =
        create_order-Placed p t transactions orders items dishes restaurants customer dto w w' o
          h in
      let same : d.restaurant ≡ r = some_inj (sym d.found ∙ found) in
      let sent = d.emitted ∙ ap (λ x. w.emitted ++ (w.on_commit ++ (notice_of x o ∷ []))) same in
      record {
        message = notice_of r o;
        restaurant_id = r.id;
        sent = rw sent (last w.emitted w.on_commit (notice_of r o));
        about = ("Owner:" <> r.owner_id, refl);
        heard =
            ap
              (λ x.
                (client == client && x == ("Owner:" <> r.owner_id))
                || is_in rooms ("Owner:" <> r.owner_id) client)
              (owner_room r.owner_id)
            ∙ rw (eq_refl client, eq_refl ("Owner:" <> r.owner_id)) refl;
      }

pub handle_driver_location-heard :
    (C : Type 0) (rooms : Rooms) (driver client stranger : String) (data' : DriverLocation C)
    → client ≢ driver
    → client ≢ stranger
    → is_in rooms ("order:" <> data'.order_id) stranger ≡ false
    → (receives C
          (handle_join_order_room client data'.order_id rooms)
          (handle_driver_location C driver data')
          client
        ≡ some ("driverLocation", record { lat = data'.lat; lng = data'.lng }))
      × (receives C
            (handle_join_order_room client data'.order_id rooms)
            (handle_driver_location C driver data')
            stranger
          ≡ none)
unfolding handle_driver_location handle_join_order_room
handle_driver_location-heard C rooms driver client stranger data' other distinct outside = (
  rw
      (
        eq_refl client,
        eq_refl ("order:" <> data'.order_id),
        ==-false driver client (λ same. other (sym same)),
      )
      refl,
  rw (==-false client stranger distinct, outside) refl,
)
