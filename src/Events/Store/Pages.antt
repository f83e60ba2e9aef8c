-- ===== src/Events/Store/Pages.antt =====
-- Reading a log in pages: what a client that has seen the events up to a number still gets.
use superion.Prelude.{
  take-append-take-drop, drop-drop, ℕ, zero, suc, ◌+◌, ◌≤◌, String, ◌≡◌, refl, ap, List, [], ◌∷◌,
  ◌++◌, arith, ltb, take, drop, keep,
}
use superion.Domain.Event.{Event}
use superion.Events.Store.{EventStore, events_of, list_since}
use superion.Events.Store.Invariant.{IsLog, NumberedFrom}

-- In a numbered list all events that are past the number pass the filter of `list_since`.
keep_all :
    (n since : ℕ) (es : List Event)
    → NumberedFrom n es
    → since + 1 ≤ n
    → keep (λ e. ltb since e.seq) es ≡ es
keep_all n since [] h le = refl
keep_all n since (e ∷ es) h le = ground (arith, keep_all (suc n) since es h.1)

keep-eq-drop :
    (k n since : ℕ) (es : List Event)
    → NumberedFrom (n + 1) es
    → since ≡ n + k
    → keep (λ e. ltb since e.seq) es ≡ drop k es
keep-eq-drop zero n since es h eq = keep_all (n + 1) since es h (omega arith)
keep-eq-drop (suc k) n since [] h eq = refl
keep-eq-drop (suc k) n since (e ∷ es) h eq = ground (arith, keep-eq-drop k (n + 1) since es)

-- `list_since` returns the events behind the first `since_seq`, in order, and at most `limit`.
pub list_since-eq-drop :
    (st : EventStore) (sid : String) (since limit : ℕ)
    → IsLog st
    → list_since st sid since limit ≡ take limit (drop since (events_of st sid))
unfolding list_since
list_since-eq-drop st sid since limit h =
    ap (take limit) (keep-eq-drop since 0 since (events_of st sid) (h.numbered sid) (omega arith))

-- A page of at most `a` events behind `since`, then a page of at most `b` events behind
-- `since + a`: together they are, in order, the one page of at most `a + b` events behind `since`.
-- Nothing is lost between pages and nothing comes twice.
pub list_since_pages :
    (st : EventStore) (sid : String) (since a b : ℕ)
    → IsLog st
    → list_since st sid since a ++ list_since st sid (since + a) b ≡ list_since st sid since (a + b)
list_since_pages st sid since a b h = rw (list_since-eq-drop st sid since a h) (
    rw (list_since-eq-drop st sid (since + a) b h) (
      rw (list_since-eq-drop st sid since (a + b) h) (
        rw (← drop-drop since a (events_of st sid))
          (take-append-take-drop a b (drop since (events_of st sid))))))
