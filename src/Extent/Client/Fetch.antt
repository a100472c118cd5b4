-- ===== src/Extent/Client/Fetch.antt =====
-- extent_client.cc: a client that stores what the server has.
use cse_labs.Prelude.{
  ℕ, inl, inr, ◌≡◌, sym, subst, ◌∙◌, true, some, List, ◌==◌, arith, Bytes, bytes_key, nat_key,
  Bool-cases,
}
use cse_labs.StdMap.{Map, lookup, insert, lookup-insert, add, member-add}
use cse_labs.Fs.Inodes.{Attr}
use cse_labs.Extent.{Server, known, register}
use cse_labs.Extent.Client.{Client, set_client}
use cse_labs.Extent.Client.Delivery.{knows, knows-new}
use cse_labs.Extent.Client.Agreement.{Agrees, IsCoherent}

-- A client stores what the server has, after it was registered.
stored :
    {V : Type 0} (m : Map Bytes (List ℕ)) (name : Bytes) (eid : ℕ) (v : V) (mine theirs : Map ℕ V)
    → knows m name eid ≡ true
    → lookup eid theirs ≡ some v
    → ((j : ℕ) (c : V)
        → lookup j mine ≡ some c
        → (knows m name j ≡ true) × (lookup j theirs ≡ some c))
    → (j : ℕ) (c : V) → lookup j (insert eid v mine) ≡ some c
    → (knows m name j ≡ true) × (lookup j theirs ≡ some c)
stored m name eid v mine theirs k e h j c q =
    let at = sym (lookup-insert eid j v mine) ∙ q in
    elim (Bool-cases (eid == j)) [
      | inl p ↦
          let same : eid ≡ j = ground (arith, p) in
          subst (λ i. (knows m name i ≡ true) × (lookup i theirs ≡ some c)) same
            (k, e ∙ ground (arith, at, p))
      | inr p ↦ h j c (ground (arith, at, p))
    ]

set_client-IsCoherent :
    (s : Server) (cs : Bytes → Client) (name : Bytes) (c : Client)
    → IsCoherent (record { server = s; clients = cs })
    → Agrees s.clients s.data_cache s.attr_cache name c
    → IsCoherent (record { server = s; clients = set_client cs name c })
set_client-IsCoherent s cs name c h a = record { agrees = λ other. set_agrees other }
  where
    set_agrees :
        (other : Bytes)
        → Agrees s.clients s.data_cache s.attr_cache other (set_client cs name c other)
    set_agrees other = elim (Bool-cases (bytes_key.beq name other)) [
      | inr p ↦ rw p (h.agrees other)
      | inl p ↦ rw p (
          subst (λ n. Agrees s.clients s.data_cache s.attr_cache n c)
            ((bytes_key.beq_iff name other).0 p) a)
    ]

pub store_data-IsCoherent :
    (s : Server) (cs : Bytes → Client) (name : Bytes) (eid : ℕ) (b : Bytes)
    → IsCoherent (record { server = s; clients = cs })
    → knows s.clients name eid ≡ true
    → lookup eid s.data_cache ≡ some b
    → IsCoherent (record {
      server = s;
      clients =
          set_client cs name (record (cs name) { data_cache = insert eid b (cs name).data_cache });
    })
store_data-IsCoherent s cs name eid b h k e =
    set_client-IsCoherent s cs name
      (record (cs name) { data_cache = insert eid b (cs name).data_cache }) h
      (record {
        buf = stored s.clients name eid b (cs name).data_cache s.data_cache k e (h.agrees name).buf;
        attr = (h.agrees name).attr;
      })

pub store_attr-IsCoherent :
    (s : Server) (cs : Bytes → Client) (name : Bytes) (eid : ℕ) (a : Attr)
    → IsCoherent (record { server = s; clients = cs })
    → knows s.clients name eid ≡ true
    → lookup eid s.attr_cache ≡ some a
    → IsCoherent (record {
      server = s;
      clients =
          set_client cs name (record (cs name) { attr_cache = insert eid a (cs name).attr_cache });
    })
store_attr-IsCoherent s cs name eid a h k e =
    set_client-IsCoherent s cs name
      (record (cs name) { attr_cache = insert eid a (cs name).attr_cache }) h
      (record {
        buf = (h.agrees name).buf;
        attr =
            stored s.clients name eid a (cs name).attr_cache s.attr_cache k e (h.agrees name).attr;
      })

pub register-knows :
    (s : Server) (client : Bytes) (id : ℕ) → knows (register s client id).clients client id ≡ true
unfolding register
register-knows s client id =
    knows-new s.clients client (add id (known (lookup client s.clients))) id
      (ground (arith, member-add id id (known (lookup client s.clients))))
