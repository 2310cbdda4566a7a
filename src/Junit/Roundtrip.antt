-- ===== src/Junit/Roundtrip.antt =====
-- The node of a test case, and the test case that is read from it.
use st_tools.Prelude.{
  ◌≡◌, ◌≢◌, ◌⊎◌, refl, ap, ◌∙◌, arith, ℕ, String, false, Option, none, some, List, [], ◌∷◌, ◌++◌,
  map, ◌==◌, eq_iff,
}
use st_tools.Prelude.Dict.{Dict, lookup}
use st_tools.Prelude.Exec.{ok}
use st_tools.Junit.{TestCase, clean, set_failure, set_skipped, set_error}
use st_tools.Junit.Nodes.{
  Times, Message, CaseNode, message, attribute, case_node, reread_message, reread_case, find,
  read_messages, plain_case, with_time, from_attributes, get_testcase_obj,
}

-- A message that is there is clean and not empty.
abbrev pub IsText : Option String → Type 0
IsText none = Unit
IsText (some m) = (clean m ≡ m) × (m ≢ "")

-- A name, a time, and messages of which the file tells all.
abbrev pub IsPlain : TestCase → Type 0
IsPlain c =
    ((n : String) × (c.name ≡ some n))
    × ((t : ℕ) × (c.time ≡ some t))
    × IsText c.failure_message
    × IsText c.skipped_message
    × IsText c.error_message
    × ((c.failure_message ≡ none) ⊎ (c.skipped_message ≡ none))

reread_text :
    (tag m : String)
    → m ≢ ""
    → reread_message (record { tag = tag; text = some m }) ≡ record { tag = tag; text = some m }
reread_text tag m h = let e : m == "" ≡ false = ground (arith, eq_iff m "", h) in simp e refl

reread_list :
    (tag : String) (o : Option String)
    → IsText o
    → map reread_message (message tag o) ≡ message tag o
reread_list tag none h = refl
reread_list tag (some m) h = ap (λ x. x ∷ []) (reread_text tag m h.1)

-- The messages of a case, read back into the case without them.
unfoldable pub messages : Option String → Option String → Option String → List Message
messages fa sk er = message "failure" fa ++ (message "skipped" sk ++ message "error" er)

pub case_of :
    String
    → ℕ
    → Option String
    → Option String
    → Option String
    → Option String
    → Option String
    → TestCase
case_of n t cl lg fa sk er = record {
  name = some n;
  time = some t;
  class_name = cl;
  log = lg;
  skipped_message = sk;
  error_message = er;
  failure_message = fa;
}

read_messages_back :
    (n : String) (t : ℕ) (cl lg fa sk er : Option String)
    → IsText fa
    → IsText sk
    → IsText er
    → (fa ≡ none) ⊎ (sk ≡ none)
    → read_messages (messages fa sk er) (plain_case (some n) t cl lg)
      ≡ ok (case_of n t cl lg fa sk er)
unfolding messages case_of find set_failure set_skipped set_error
read_messages_back n t cl lg none none none a b c e = refl
read_messages_back n t cl lg none none (some m) a b c e = rw c.0 refl
read_messages_back n t cl lg none (some m) none a b c e = rw b.0 refl
read_messages_back n t cl lg none (some m) (some m') a b c e = rw (b.0, c.0) refl
read_messages_back n t cl lg (some m) none none a b c e = rw a.0 refl
read_messages_back n t cl lg (some m) none (some m') a b c e = rw (a.0, c.0) refl
read_messages_back n t cl lg (some m) (some m') er a b c e = ground (arith, e)

map-reread_message :
    (l m : List Message)
    → map reread_message (l ++ m) ≡ map reread_message l ++ map reread_message m
map-reread_message [] m = refl
map-reread_message (x ∷ l) m = ap (λ k. reread_message x ∷ k) (map-reread_message l m)

reread_messages :
    (fa sk er : Option String)
    → IsText fa
    → IsText sk
    → IsText er
    → map reread_message (messages fa sk er) ≡ messages fa sk er
unfolding messages
reread_messages fa sk er a b c =
    rw
      (
        map-reread_message (message "failure" fa) (message "skipped" sk ++ message "error" er),
        map-reread_message (message "skipped" sk) (message "error" er),
        reread_list "failure" fa a,
        reread_list "skipped" sk b,
        reread_list "error" er c,
      )
      refl

unfoldable pub attributes : Times → String → ℕ → Option String → Option String → Dict String
attributes times n t cl lg =
    (("name", n) ∷ ("time", times.show_time t) ∷ [])
    ++ (attribute "classname" cl ++ attribute "log" lg)

attributes-lookup :
    (times : Times) (n : String) (t : ℕ) (cl lg : Option String)
    → let l = attributes times n t cl lg in
      (lookup "name" l ≡ some n)
      × (lookup "time" l ≡ some (times.show_time t))
      × (lookup "classname" l ≡ cl)
      × (lookup "log" l ≡ lg)
unfolding attributes lookup
attributes-lookup times n t none none = (refl, refl, refl, refl)
attributes-lookup times n t none (some y) = (refl, refl, refl, refl)
attributes-lookup times n t (some x) none = (refl, refl, refl, refl)
attributes-lookup times n t (some x) (some y) = (refl, refl, refl, refl)

-- The time that is shown is the time that is read.
abbrev pub IsExact : Times → Type 0
IsExact times = (t : ℕ) → times.read_time (times.show_time t) ≡ some t

unfoldable pub node_of :
    Times
    → String
    → ℕ
    → Option String
    → Option String
    → Option String
    → Option String
    → Option String
    → CaseNode
node_of times n t cl lg fa sk er = record {
  attributes = attributes times n t cl lg;
  messages = messages fa sk er;
}

pub node_back :
    (times : Times) (exact : IsExact times) (n : String) (t : ℕ) (cl lg fa sk er : Option String)
    → IsText fa
    → IsText sk
    → IsText er
    → (fa ≡ none) ⊎ (sk ≡ none)
    → get_testcase_obj times (reread_case (node_of times n t cl lg fa sk er))
      ≡ ok (case_of n t cl lg fa sk er)
unfolding get_testcase_obj node_of
node_back times exact n t cl lg fa sk er ha hb hc hd =
    let (name, time, class_name, log) = attributes-lookup times n t cl lg in
    let l = messages fa sk er in
    let a = attributes times n t cl lg in
    ap
      (λ (x : Option String).
        from_attributes times x (lookup "classname" a) (lookup "log" a) (map reread_message l)
          (lookup "time" a))
      name
    ∙ ap
        (λ (x : Option String).
          from_attributes times (some n) x (lookup "log" a) (map reread_message l)
            (lookup "time" a))
        class_name
    ∙ ap
        (λ (x : Option String).
          from_attributes times (some n) cl x (map reread_message l) (lookup "time" a))
        log
    ∙ ap (λ (x : Option String). from_attributes times (some n) cl lg (map reread_message l) x) time
    ∙ ap (λ (x : Option ℕ). with_time (some n) cl lg (map reread_message l) x) (exact t)
    ∙ ap (λ (x : List Message). read_messages x (plain_case (some n) t cl lg))
        (reread_messages fa sk er ha hb hc)
    ∙ read_messages_back n t cl lg fa sk er ha hb hc hd

pub case_node-case_of :
    (times : Times) (n : String) (t : ℕ) (cl lg fa sk er : Option String)
    → case_node times (case_of n t cl lg fa sk er) ≡ ok (node_of times n t cl lg fa sk er)
unfolding case_node case_of node_of attributes messages
case_node-case_of times n t cl lg fa sk er = refl

pub plain_case_of :
    (c : TestCase) (n : String) (t : ℕ)
    → c.name ≡ some n
    → c.time ≡ some t
    → case_of n t c.class_name c.log c.failure_message c.skipped_message c.error_message ≡ c
unfolding case_of
plain_case_of c n t e f = rw (e, f) refl
