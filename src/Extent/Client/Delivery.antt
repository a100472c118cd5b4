-- ===== src/Extent/Client/Delivery.antt =====
-- extent_client.cc: the caches after the calls of the server.
use cse_labs.Prelude.{
  ℕ, inl, inr, ◌≡◌, refl, Bool, true, false, ◌&&◌, ◌||◌, none, some, List, [], ◌∷◌, ◌++◌, ◌==◌,
  if◌then◌else◌, arith, Bytes, bytes_key, nat_key, Bool-cases,
}
use cse_labs.StdMap.{Map, lookup, insert, lookup-insert, lookup-erase, member}
use cse_labs.Fs.Inodes.{Attr}
use cse_labs.Extent.{Call, update_handler, remove_handler, broadcast, known}
use cse_labs.Extent.Client.{Client, deliver, deliver_all}

-- Whether the server knows that the client has the extent.
unfoldable pub knows : Map Bytes (List ℕ) → Bytes → ℕ → Bool
knows [] name id = false
knows ((c, ids) ∷ m) name id = (bytes_key.beq c name && member id ids) || knows m name id

pub deliver-append :
    (a b : List Call) (cs : Bytes → Client)
    → deliver_all (a ++ b) cs ≡ deliver_all b (deliver_all a cs)
unfolding deliver_all
deliver-append [] b cs = refl
deliver-append (x ∷ a) b cs = deliver-append a b (deliver x cs)

-- What an update leaves in the caches.
pub update_data :
    (m : Map Bytes (List ℕ)) (cs : Bytes → Client) (name : Bytes) (id j : ℕ) (a : Attr)
    (buf : Bytes)
    → (lookup j (deliver_all (broadcast (λ c. update_handler c id a buf) m id) cs name).data_cache
        ≡ (if knows m name id && id == j then some buf else lookup j (cs name).data_cache))
unfolding deliver_all deliver broadcast knows
update_data [] cs name id j a buf = refl
update_data ((c, ids) ∷ m) cs name id j a buf =
    let after = deliver (update_handler c id a buf) cs in
    ground (
      arith,
      update_data m cs name id j a buf,
      update_data m after name id j a buf,
      bytes_key.beq_iff c name,
      lookup-insert id j buf (cs c).data_cache,
    )

pub update_attr :
    (m : Map Bytes (List ℕ)) (cs : Bytes → Client) (name : Bytes) (id j : ℕ) (a : Attr)
    (buf : Bytes)
    → (lookup j (deliver_all (broadcast (λ c. update_handler c id a buf) m id) cs name).attr_cache
        ≡ (if knows m name id && id == j then some a else lookup j (cs name).attr_cache))
unfolding deliver_all deliver broadcast knows
update_attr [] cs name id j a buf = refl
update_attr ((c, ids) ∷ m) cs name id j a buf =
    let after = deliver (update_handler c id a buf) cs in
    ground (
      arith,
      update_attr m cs name id j a buf,
      update_attr m after name id j a buf,
      bytes_key.beq_iff c name,
      lookup-insert id j a (cs c).attr_cache,
    )

-- What a removal leaves in the caches.
pub remove_data :
    (m : Map Bytes (List ℕ)) (cs : Bytes → Client) (name : Bytes) (id j : ℕ)
    → (lookup j (deliver_all (broadcast (λ c. remove_handler c id) m id) cs name).data_cache
        ≡ (if knows m name id && id == j then none else lookup j (cs name).data_cache))
unfolding deliver_all deliver broadcast knows
remove_data [] cs name id j = refl
remove_data ((c, ids) ∷ m) cs name id j =
    let after = deliver (remove_handler c id) cs in
    ground (
      arith,
      remove_data m cs name id j,
      remove_data m after name id j,
      bytes_key.beq_iff c name,
      lookup-erase id j (cs c).data_cache,
    )

pub remove_attr :
    (m : Map Bytes (List ℕ)) (cs : Bytes → Client) (name : Bytes) (id j : ℕ)
    → (lookup j (deliver_all (broadcast (λ c. remove_handler c id) m id) cs name).attr_cache
        ≡ (if knows m name id && id == j then none else lookup j (cs name).attr_cache))
unfolding deliver_all deliver broadcast knows
remove_attr [] cs name id j = refl
remove_attr ((c, ids) ∷ m) cs name id j =
    let after = deliver (remove_handler c id) cs in
    ground (
      arith,
      remove_attr m cs name id j,
      remove_attr m after name id j,
      bytes_key.beq_iff c name,
      lookup-erase id j (cs c).attr_cache,
    )

-- A client that is registered stays so, and the new one is.
pub knows-insert :
    (m : Map Bytes (List ℕ)) (client name : Bytes) (ids : List ℕ) (j : ℕ)
    → ((i : ℕ) → member i (known (lookup client m)) ≡ true → member i ids ≡ true)
    → knows m name j ≡ true
    → knows (insert client ids m) name j ≡ true
unfolding knows insert lookup
knows-insert [] client name ids j more h = cc
knows-insert ((c, old) ∷ m) client name ids j more h = elim (Bool-cases (bytes_key.beq c client)) [
  | inl p ↦
      let mine : member j old ≡ true → member j ids ≡ true = λ q. more j (rw p q) in
      ground (
        arith,
        h,
        p,
        mine,
        bytes_key.beq_iff c client,
        bytes_key.beq_iff c name,
        bytes_key.beq_iff client name,
      )
  | inr p ↦
      let rest : knows m name j ≡ true → knows (insert client ids m) name j ≡ true =
        knows-insert m client name ids j (λ i q. more i (rw p q)) in
      ground (arith, h, p, rest)
]

pub knows-new :
    (m : Map Bytes (List ℕ)) (client : Bytes) (ids : List ℕ) (j : ℕ)
    → member j ids ≡ true
    → knows (insert client ids m) client j ≡ true
unfolding knows insert
knows-new [] client ids j h = ground (arith, bytes_key.beq_iff client client)
knows-new ((c, old) ∷ m) client ids j h =
    ground (arith, bytes_key.beq_iff client client, knows-new m client ids j h)
