-- ===== src/BuildHandler/Queue/Order.antt =====
-- The order of service: `find_next_build` and `get_build` take builds in the order in which
-- `fetch_pending_build_list` lists them.
use st_tools.Prelude.{
  ◌≡◌, refl, ap, String, Bool, true, false, Option, none, some, List, [], ◌∷◌, ◌++◌, reverse, arith,
  inl, inr, Option-cases, last?, is_some, reverse-last, nil_of_last, eq_iff,
}
use st_tools.Prelude.Dict.{
  Dict, lookup, modify, IsDict, modify_of_missing, modify-reverse, reverse-IsDict,
}
use st_tools.Version.Sort.{sort, sort-IsDict, sort-modify}
use st_tools.BuildHandler.{Project, Service}
use st_tools.BuildHandler.Queue.{
  first_high, first_pending, clear_high, pop_pending, Found, found_pending, found, find_in,
  find_next_build, is_there_build_to_test, list_high, list_pending, fetch_pending_build_list,
}

-- Without a build of high priority the first part of the list is empty.
list_high-nil : (d : Dict Project) → first_high d ≡ none → list_high d ≡ []
unfolding list_high first_high
list_high-nil [] h = refl
list_high-nil ((k, p) ∷ d) h = ground (arith, list_high-nil d)

has-first_high :
    (d : Dict Project) (k b : String) → first_high d ≡ some (k, b) → is_some (lookup k d) ≡ true
unfolding first_high lookup
has-first_high [] k b h = cc
has-first_high ((j, p) ∷ d) k b h = ground (arith, eq_iff j k, has-first_high d k b)

list_high-next :
    (d : Dict Project) (k b : String)
    → IsDict d
    → first_high d ≡ some (k, b)
    → list_high d ≡ (b, true) ∷ list_high (modify k clear_high d)
unfolding list_high first_high clear_high modify
list_high-next [] k b i h = cc
list_high-next ((j, p) ∷ d) k b i h = ground (
  arith,
  eq_iff j k,
  has-first_high d k b,
  modify_of_missing k clear_high d,
  list_high-next d k b i.1,
)

list_high-pop : (k : String) (d : Dict Project) → list_high (modify k pop_pending d) ≡ list_high d
unfolding list_high modify pop_pending
list_high-pop k [] = refl
list_high-pop k ((j, p) ∷ d) = ground (arith, list_high-pop k d)

list_pending-clear :
    (k : String) (d : Dict Project) → list_pending (modify k clear_high d) ≡ list_pending d
unfolding list_pending modify clear_high
list_pending-clear k [] = refl
list_pending-clear k ((j, p) ∷ d) = ground (arith, list_pending-clear k d)

list_pending-nil : (d : Dict Project) → first_pending d ≡ none → list_pending d ≡ []
unfolding list_pending first_pending
list_pending-nil [] h = refl
list_pending-nil ((k, p) ∷ d) h = ground (arith, nil_of_last p.pending, list_pending-nil d)

has-first_pending :
    (d : Dict Project) (k b : String) → first_pending d ≡ some (k, b) → is_some (lookup k d) ≡ true
unfolding first_pending lookup
has-first_pending [] k b h = cc
has-first_pending ((j, p) ∷ d) k b h = ground (arith, eq_iff j k, has-first_pending d k b)

list_pending-next :
    (d : Dict Project) (k b : String)
    → IsDict d
    → first_pending d ≡ some (k, b)
    → list_pending d ≡ (b, false) ∷ list_pending (modify k pop_pending d)
unfolding list_pending first_pending pop_pending modify
list_pending-next [] k b i h = cc
list_pending-next ((j, p) ∷ d) k b i h = elim (Option-cases (last? p.pending)) [
  | inl e ↦ ground (
    arith,
    eq_iff j k,
    nil_of_last p.pending e,
    has-first_pending d k b,
    list_pending-next d k b i.1,
  )
  | inr (c, e) ↦
      ground (arith, eq_iff j k, reverse-last c p.pending e, modify_of_missing k pop_pending d)
]

-- What a queue listed as `l` gives next.
abbrev pub first_of : List (String × Bool) → Option String × Bool
first_of [] = (none, false)
first_of ((b, high) ∷ l) = (some b, high)

abbrev pub rest_of : List (String × Bool) → List (String × Bool)
rest_of [] = []
rest_of (e ∷ l) = l

abbrev listing : Dict Project → List (String × Bool)
listing es = list_high es ++ list_pending (reverse es)

-- The search for the next build, against the listing of the sorted projects.
abbrev Serves : Dict Project → Dict Project → Found → Type 0
Serves es q f =
    ((f.build, f.high) ≡ first_of (listing es)) × (listing (sort f.queue) ≡ rest_of (listing es))

found_pending-Serves :
    (q : Dict Project) (o : Option (String × String))
    → IsDict q
    → first_high (sort q) ≡ none
    → first_pending (reverse (sort q)) ≡ o
    → Serves (sort q) q (found_pending q o)
unfolding found_pending
found_pending-Serves q none i e f =
    rw (list_high-nil (sort q) e, list_pending-nil (reverse (sort q)) f) (refl, refl)
found_pending-Serves q (some (k, b)) i e f =
    rw
      (
        sort-modify k pop_pending q,
        list_high-pop k (sort q),
        ← modify-reverse k pop_pending (sort q),
        list_high-nil (sort q) e,
        list_pending-next (reverse (sort q)) k b (reverse-IsDict (sort q) (sort-IsDict q i)) f,
      )
      (refl, refl)

found-Serves :
    (q : Dict Project) (o : Option (String × String))
    → IsDict q
    → first_high (sort q) ≡ o
    → Serves (sort q) q (found (sort q) q o)
unfolding found
found-Serves q none i e = found_pending-Serves q _ i e refl
found-Serves q (some (k, b)) i e =
    rw
      (
        sort-modify k clear_high q,
        ← modify-reverse k clear_high (sort q),
        list_pending-clear k (reverse (sort q)),
        list_high-next (sort q) k b (sort-IsDict q i) e,
      )
      (refl, refl)

find_in-Serves : (q : Dict Project) → IsDict q → Serves (sort q) q (find_in (sort q) q)
unfolding find_in
find_in-Serves q i = found-Serves q _ i refl

-- The next build is the head of the pending build list, with its priority, whether it is taken out
-- of the queue or only looked at; taking it out leaves the tail of the list, and looking at it
-- leaves the service as it was. The projects of the queue are a dict: no key stands twice.
pub find_next_build_serves_list :
    (s : Service)
    → IsDict s.db.priority
    → let l = fetch_pending_build_list s in
      ((find_next_build true s).0 ≡ first_of l)
      × (fetch_pending_build_list (find_next_build true s).1 ≡ rest_of l)
      × (find_next_build false s ≡ (first_of l, s))
unfolding find_next_build fetch_pending_build_list
find_next_build_serves_list s i =
    let (next, rest) = find_in-Serves s.db.priority i in (next, rest, ap (λ r. (r, s)) next)

-- A build to test is reported exactly when the pending build list is not empty. The projects of the
-- queue are a dict.
pub is_there_build_to_test-eq :
    (s : Service)
    → IsDict s.db.priority
    → is_there_build_to_test s ≡ is_some (first_of (fetch_pending_build_list s)).0
unfolding is_there_build_to_test
is_there_build_to_test-eq s i =
    ap (λ (r : (Option String × Bool) × Service). is_some r.0.0) (find_next_build_serves_list s i).2
