-- ===== src/Extent/Client/Agreement.antt =====
-- extent_client.cc: the agreement of a client's caches with the server's.
use cse_labs.Prelude.{
  ℕ, inl, inr, ◌≡◌, ap, sym, subst, ◌∙◌, true, ◌&&◌, Option, none, some, List, ◌==◌, if◌then◌else◌,
  arith, Bytes, bytes_key, nat_key, Bool-cases,
}
use cse_labs.StdMap.{
  Map, lookup, insert, erase, lookup-insert, lookup-erase, member, add, member-add,
}
use cse_labs.Fs.Inodes.{Attr}
use cse_labs.Extent.{
  update_handler, remove_handler, Server, broadcast, known, register, data_of, attr_of, touch_data,
}
use cse_labs.Extent.Client.{Client, World, deliver_all}
use cse_labs.Extent.Client.Delivery.{
  knows, update_data, update_attr, remove_data, remove_attr, knows-insert,
}

-- What the client has, the server knows that it has, and has itself.
pub record Agrees (m : Map Bytes (List ℕ)) (bufs : Map ℕ Bytes) (attrs : Map ℕ Attr) (name : Bytes)
    (c : Client) : Type 0 where
  pub buf :
      (j : ℕ) (b : Bytes)
      → lookup j c.data_cache ≡ some b
      → (knows m name j ≡ true) × (lookup j bufs ≡ some b)
  pub attr :
      (j : ℕ) (a : Attr)
      → lookup j c.attr_cache ≡ some a
      → (knows m name j ≡ true) × (lookup j attrs ≡ some a)

pub record IsCoherent (w : World) : Type 0 where
  pub agrees :
      (name : Bytes)
      → Agrees w.server.clients w.server.data_cache w.server.attr_cache name (w.clients name)

member-known-add :
    (id i : ℕ) (o : Option (List ℕ))
    → member i (known o) ≡ true
    → member i (add id (known o)) ≡ true
member-known-add id i o h = ground (arith, member-add id i (known o), h)

pub register-IsCoherent :
    (s : Server) (cs : Bytes → Client) (client : Bytes) (id : ℕ)
    → IsCoherent (record { server = s; clients = cs })
    → IsCoherent (record { server = register s client id; clients = cs })
unfolding register
register-IsCoherent s cs client id h =
    let more = λ (name : Bytes) (j : ℕ).
      knows-insert s.clients client name (add id (known (lookup client s.clients))) j
        (λ i. member-known-add id i (lookup client s.clients)) in
    record {
      agrees = λ name. record {
        buf = λ j b e. (more name j ((h.agrees name).buf j b e).0, ((h.agrees name).buf j b e).1);
        attr =
            λ j b e. (more name j ((h.agrees name).attr j b e).0, ((h.agrees name).attr j b e).1);
      };
    }

pub touch_data-IsCoherent :
    (s : Server) (cs : Bytes → Client) (id : ℕ)
    → IsCoherent (record { server = s; clients = cs })
    → IsCoherent (record { server = touch_data s id; clients = cs })
unfolding data_of
touch_data-IsCoherent s cs id h = record {
  agrees = λ name. record {
    buf = λ j b e.
        let old = (h.agrees name).buf j b e in
        (old.0, ground (arith, old.1, lookup-insert id j (data_of s id) s.data_cache));
    attr = (h.agrees name).attr;
  };
}

pub touch_attr-IsCoherent :
    (s : Server) (cs : Bytes → Client) (id : ℕ)
    → IsCoherent (record { server = s; clients = cs })
    → IsCoherent (record {
      server = record s { attr_cache = insert id (attr_of s id) s.attr_cache };
      clients = cs;
    })
unfolding attr_of
touch_attr-IsCoherent s cs id h = record {
  agrees = λ name. record {
    buf = (h.agrees name).buf;
    attr = λ j a e.
        let old = (h.agrees name).attr j a e in
        (old.0, ground (arith, old.1, lookup-insert id j (attr_of s id) s.attr_cache));
  };
}

-- An entry is replaced on the server and at a client that has it.
replaced :
    {V : Type 0} (m : Map Bytes (List ℕ)) (name : Bytes) (id j : ℕ) (new mine theirs : Option V)
    {b : V}
    → (if knows m name id && id == j then new else mine) ≡ some b
    → (mine ≡ some b → (knows m name j ≡ true) × (theirs ≡ some b))
    → (knows m name j ≡ true) × ((if id == j then new else theirs) ≡ some b)
replaced m name id j new mine theirs e h = elim (Bool-cases (id == j)) [
  | inl p ↦
      let same : knows m name id ≡ knows m name j = ap (knows m name) (ground (arith, p)) in
      elim (Bool-cases (knows m name j)) [
        | inl q ↦ (q, ground (arith, e, p, q, same))
        | inr q ↦ absurd (ground (arith, e, p, q, same, h))
      ]
  | inr p ↦ rw p (h (ground (arith, e, p)))
]

-- An entry of the server's caches is changed, and the calls go out.
abbrev updated : Server → ℕ → Bytes → Attr → Server
updated s id buf a = record s {
  data_cache = insert id buf s.data_cache;
  attr_cache = insert id a s.attr_cache;
}

pub updated-IsCoherent :
    (s : Server) (cs : Bytes → Client) (id : ℕ) (buf : Bytes) (a : Attr)
    → IsCoherent (record { server = s; clients = cs })
    → IsCoherent (record {
      server = updated s id buf a;
      clients = deliver_all (broadcast (λ c. update_handler c id a buf) s.clients id) cs;
    })
updated-IsCoherent s cs id buf a h = record {
  agrees = λ name. record {
    buf = λ j b e.
        subst (λ k. (knows s.clients name j ≡ true) × (k ≡ some b))
          (sym (lookup-insert id j buf s.data_cache))
          (replaced s.clients name id j (some buf) (lookup j (cs name).data_cache)
            (lookup j s.data_cache) (sym (update_data s.clients cs name id j a buf) ∙ e)
            ((h.agrees name).buf j b));
    attr = λ j b e.
        subst (λ k. (knows s.clients name j ≡ true) × (k ≡ some b))
          (sym (lookup-insert id j a s.attr_cache))
          (replaced s.clients name id j (some a) (lookup j (cs name).attr_cache)
            (lookup j s.attr_cache) (sym (update_attr s.clients cs name id j a buf) ∙ e)
            ((h.agrees name).attr j b));
  };
}

pub removed-IsCoherent :
    (s : Server) (cs : Bytes → Client) (id : ℕ)
    → IsCoherent (record { server = s; clients = cs })
    → IsCoherent (record {
      server = record s { data_cache = erase id s.data_cache; attr_cache = erase id s.attr_cache };
      clients = deliver_all (broadcast (λ c. remove_handler c id) s.clients id) cs;
    })
removed-IsCoherent s cs id h = record {
  agrees = λ name. record {
    buf = λ j b e.
        subst (λ k. (knows s.clients name j ≡ true) × (k ≡ some b))
          (sym (lookup-erase id j s.data_cache))
          (replaced s.clients name id j none (lookup j (cs name).data_cache) (lookup j s.data_cache)
            (sym (remove_data s.clients cs name id j) ∙ e) ((h.agrees name).buf j b));
    attr = λ j b e.
        subst (λ k. (knows s.clients name j ≡ true) × (k ≡ some b))
          (sym (lookup-erase id j s.attr_cache))
          (replaced s.clients name id j none (lookup j (cs name).attr_cache) (lookup j s.attr_cache)
            (sym (remove_attr s.clients cs name id j) ∙ e) ((h.agrees name).attr j b));
  };
}
