-- ===== src/Sockets/Services/Grouped.antt =====
-- The services of socket-inventory, beside the sockets that they group.
use pantheon_tools_catalog.Prelude.{
  ◌≡◌, refl, ◌∙◌, Bool, true, false, ◌&&◌, ◌||◌, List, [], ◌∷◌, arith, foldl, any, ◌==◌, Ordering,
}
use pantheon_tools_catalog.Text.{Text, text_eq}
use pantheon_tools_catalog.Text.Order.{text_cmp_eq}
use pantheon_tools_catalog.Map.{Map, insert, contains_key, get-insert, contains_key-get}
use pantheon_tools_catalog.Sockets.Services.{
  Key, Service, OwnedSocket, key_cmp, update_entry, key_of, bind, group, default_service,
}

abbrev pub key_eq : Key → Key → Bool
key_eq k l = text_eq k.proto l.proto && k.port == l.port && text_eq k.owner l.owner

-- One of the services of a key has an address.
abbrev pub bound : Key → Text → List (Key × Service) → Bool
bound k b [] = false
bound k b ((l, s) ∷ m) = (key_eq k l && contains_key b s.binds) || bound k b m

-- The socket has the key and the address.
abbrev pub binds_at : Key → Text → OwnedSocket → Bool
binds_at k b s = key_eq k (key_of s) && text_eq s.local_addr b

contains_key-insert :
    (a b : Text) (m : Map (Unit {0}))
    → contains_key b (insert a tt m) ≡ (text_eq a b || contains_key b m)
contains_key-insert a b m =
    ground (arith, contains_key-get b (insert a tt m), contains_key-get b m, get-insert a b tt m)

bind-contains_key :
    (s : OwnedSocket) (b : Text) (e : Service)
    → contains_key b (bind s e).binds ≡ (text_eq s.local_addr b || contains_key b e.binds)
unfolding bind
bind-contains_key s b e = contains_key-insert s.local_addr b e.binds

key_cmp-eq : (k l : Key) → key_cmp k l ≡ Ordering.eq → k ≡ l
unfolding key_cmp
key_cmp-eq k l h = ground (arith, text_cmp_eq k.proto l.proto, text_cmp_eq k.owner l.owner)

update_entry-bound :
    (k : Key) (b : Text) (s : OwnedSocket) (m : List (Key × Service))
    → bound k b (update_entry (key_of s) (bind s) m) ≡ (binds_at k b s || bound k b m)
unfolding update_entry contains_key
update_entry-bound k b s [] = ground (arith, bind-contains_key s b default_service)
update_entry-bound k b s ((l, e) ∷ m) = go (key_cmp (key_of s) l) refl (update_entry-bound k b s m)
  where
    go :
        (o : Ordering)
        → key_cmp (key_of s) l ≡ o
        → bound k b (update_entry (key_of s) (bind s) m) ≡ (binds_at k b s || bound k b m)
        → bound k b (update_entry (key_of s) (bind s) ((l, e) ∷ m))
          ≡ (binds_at k b s || bound k b ((l, e) ∷ m))
    go Ordering.lt h ih =
        rw (update_entry, h) (ground (arith, bind-contains_key s b default_service))
    go Ordering.eq h ih =
        rw (update_entry, h) (ground (arith, bind-contains_key s b e, key_cmp-eq (key_of s) l h))
    go Ordering.gt h ih = rw (update_entry, h) (ground arith)

-- A service with a protocol family, a port and an owner is bound to an address exactly where a
-- listening socket of this family, port and owner is.
pub group-bound :
    (k : Key) (b : Text) (listeners : List OwnedSocket)
    → bound k b (group listeners) ≡ any (binds_at k b) listeners
unfolding group
group-bound k b listeners = go listeners [] ∙ or_false (any (binds_at k b) listeners)
  where
    or_false : (x : Bool) → (x || false) ≡ x
    or_false true = refl
    or_false false = refl

    step : List (Key × Service) → OwnedSocket → List (Key × Service)
    step m s = update_entry (key_of s) (bind s) m

    go :
        (ss : List OwnedSocket) (m : List (Key × Service))
        → bound k b (foldl step m ss) ≡ (any (binds_at k b) ss || bound k b m)
    go [] m = refl
    go (s ∷ ss) m = go ss (step m s) ∙ ground (arith, update_entry-bound k b s m)
