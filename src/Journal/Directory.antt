-- ===== src/Journal/Directory.antt =====
-- A journal directory from the writer's side to the reader's: what a sequence of appends leaves on
-- the disk, as the segments that a reader of the directory meets.
use ume.Prelude.{
  false, ℕ, zero, suc, ◌+◌, ◌^◌, ◌≤◌, ◌<◌, ◌≡◌, refl, sym, ap, ◌∙◌, subst, none, some, List, [],
  ◌∷◌, ◌++◌, length, ◌==◌, add64, get_elem?, append_assoc, append-nil, Bool-cases, inl, inr, arith,
}
use ume.Event.{Event, IsEvent}
use ume.Journal.File.{File}
use ume.Journal.Disk.{Os, Disk, all_succeed}
use ume.Journal.Writer.{Writer, append, append_all}
use ume.Journal.Paths.Order.{paths_from}
use ume.Journal.Contents.{Entry, Records}
use ume.Journal.Append.{Contents, add_entry, entries, entries-suc, Logs, append-Appends}
use ume.Journal.Drain.{Slot, Slots, AllEvents, Follows, found, found_of, intact}

-- The events that are appended, each with the clock's reading.
abbrev pub appended : List (ℕ × Event) → List Event
appended [] = []
appended ((now, e) ∷ es) = e ∷ appended es

-- The events have their widths.
abbrev pub HaveWidths : List (ℕ × Event) → Type 0
HaveWidths [] = Unit {0}
HaveWidths ((now, e) ∷ es) = IsEvent e × HaveWidths es

-- Records that are not damaged.
abbrev pub slots : List Entry → List Slot
slots [] = []
slots (x ∷ rs) = (x, false) ∷ slots rs

Slots-slots : (f : File) (off : ℕ) (rs : List Entry) → Records f off rs → Slots f off (slots rs)
Slots-slots f off [] h = h
Slots-slots f off (x ∷ rs) (here, rest) = (here, Slots-slots f (off + 160) rs rest)

length-slots : (rs : List Entry) → length (slots rs) ≡ length rs
length-slots [] = refl
length-slots (x ∷ rs) = ap suc (length-slots rs)

abbrev pub events : List Entry → List Event
events [] = []
events ((seq, e) ∷ rs) = e ∷ events rs

found-slots : (rs : List Entry) → found (slots rs) ≡ intact (events rs)
found-slots [] = refl
found-slots (x ∷ rs) = ap (◌∷◌ (x.1, false)) (found-slots rs)

intact-append : (xs ys : List Event) → intact (xs ++ ys) ≡ intact xs ++ intact ys
intact-append [] ys = refl
intact-append (x ∷ xs) ys = ap (◌∷◌ (x, false)) (intact-append xs ys)

-- Every entry of every segment holds an event with its widths.
abbrev pub HoldsEvents : Contents → Type 0
HoldsEvents c = (i : ℕ) → AllEvents (slots (c i))

AllEvents-snoc :
    (rs : List Entry) (seq : ℕ) (e : Event)
    → AllEvents (slots rs)
    → IsEvent e
    → AllEvents (slots (rs ++ (seq, e) ∷ []))
AllEvents-snoc [] seq e h v = (v, tt)
AllEvents-snoc (r ∷ rs) seq e (p, h) v = (p, AllEvents-snoc rs seq e h v)

add_entry-HoldsEvents :
    (c : Contents) (k seq : ℕ) (e : Event)
    → HoldsEvents c
    → IsEvent e
    → HoldsEvents (add_entry c k (seq, e))
add_entry-HoldsEvents c k seq e h v i = elim (Bool-cases (i == k)) [
  | inl same ↦ simp same (AllEvents-snoc (c k) seq e (h k) v)
  | inr other ↦ simp other (h i)
]

events-snoc : (rs : List Entry) (x : Entry) → events (rs ++ x ∷ []) ≡ events rs ++ x.1 ∷ []
events-snoc [] x = refl
events-snoc (r ∷ rs) x = ap (◌∷◌ r.1) (events-snoc rs x)

-- What a sequence of appends leaves.
pub record Recorded (w : Writer) (disk : Disk) (before es : List Event) : Type 0 where
  pub contents : Contents
  pub logs : Logs w disk contents
  pub widths : HoldsEvents contents
  pub all_events : events (entries contents (suc w.current_segment_id)) ≡ before ++ es

pub append_all-Recorded :
    (os : Os) (es : List (ℕ × Event)) (w : Writer) (disk : Disk) (c : Contents)
    (before : List Event)
    → ((i : ℕ) → os i ≡ all_succeed)
    → HaveWidths es
    → w.current_segment_id + length es < 2 ^ 64
    → Logs w disk c
    → HoldsEvents c
    → events (entries c (suc w.current_segment_id)) ≡ before
    → let (w', disk') = append_all os es w disk in
      Recorded w' disk' before (appended es)
      × (w'.segment_size_bytes ≡ w.segment_size_bytes)
      × (w'.current_segment_id ≤ w.current_segment_id + length es)
unfolding append_all
append_all-Recorded os [] w disk c before good h small l a e = (
  record { contents = c; logs = l; widths = a; all_events = e ∙ sym (append-nil before) },
  refl,
  omega arith,
)
append_all-Recorded os ((now, x) ∷ es) w disk c before good (v, h) small l a e =
    let out = append os now x w disk in
    let seq = add64 w.sequence_counter 1 in
    let s =
      append-Appends os now w disk c x v l (omega arith) (good (add64 w.current_segment_id 1)) in
    let c' = add_entry c out.1.current_segment_id (seq, x) in
    let (rest, size, number) =
      append_all-Recorded os es out.1 out.2 c' (before ++ x ∷ []) good h (omega (arith, s.segment))
        s.logs (add_entry-HoldsEvents c out.1.current_segment_id seq x a v)
        (ap events s.last
          ∙ (events-snoc (entries c (suc w.current_segment_id)) (seq, x)
              ∙ ap (λ b. b ++ x ∷ []) e)) in
    (
      record {
        contents = rest.contents;
        logs = rest.logs;
        widths = rest.widths;
        all_events = rest.all_events ∙ append_assoc before (x ∷ []) (appended es);
      },
      size ∙ s.size,
      omega (arith, number, s.segment),
    )

abbrev pub segments_from : Contents → ℕ → ℕ → List (List Slot)
segments_from c i zero = []
segments_from c i (suc n) = slots (c i) ∷ segments_from c (i + 1) n

get_elem?-paths_from : (i n j : ℕ) → j < n → get_elem? (paths_from i n) j ≡ some (i + j)
get_elem?-paths_from i zero j h = absurd (omega arith)
get_elem?-paths_from i (suc n) zero h = ap some (omega arith)
get_elem?-paths_from i (suc n) (suc j) h =
    get_elem?-paths_from (i + 1) n j (omega arith) ∙ ap some (omega arith)

get_elem?-paths_end : (i n : ℕ) → get_elem? (paths_from i n) n ≡ none
get_elem?-paths_end i zero = refl
get_elem?-paths_end i (suc n) = get_elem?-paths_end (i + 1) n

events-append : (rs ss : List Entry) → events (rs ++ ss) ≡ events rs ++ events ss
events-append [] ss = refl
events-append (r ∷ rs) ss = ap (◌∷◌ r.1) (events-append rs ss)

-- Reading the segments in order gives the entries in order.
pub found-segments_from :
    (c : Contents) (i n : ℕ)
    → intact (events (entries c i)) ++ found_of (segments_from c i n)
      ≡ intact (events (entries c (i + n)))
found-segments_from c i zero =
    append-nil (intact (events (entries c i)))
    ∙ ap (λ k. intact (events (entries c k))) (omega arith)
found-segments_from c i (suc n) =
    ap (λ xs. intact (events (entries c i)) ++ (xs ++ found_of (segments_from c (i + 1) n)))
      (found-slots (c i))
    ∙ sym (
        append_assoc (intact (events (entries c i))) (intact (events (c i)))
          (found_of (segments_from c (i + 1) n)))
    ∙ ap (λ xs. xs ++ found_of (segments_from c (i + 1) n))
        (sym (intact-append (events (entries c i)) (events (c i))) ∙ ap intact one_more)
    ∙ found-segments_from c (i + 1) n
    ∙ ap (λ k. intact (events (entries c k))) (omega arith)
  where
    one_more : events (entries c i) ++ events (c i) ≡ events (entries c (i + 1))
    one_more =
        sym (events-append (entries c i) (c i))
        ∙ (ap events (sym (entries-suc c i)) ∙ ap (λ k. events (entries c k)) (omega arith))

-- The segments that follow in the directory, for a reader.
pub Follows-segments_from :
    (os : Os) (w : Writer) (disk : Disk) (c : Contents) (total i n : ℕ)
    → ((j : ℕ) → os j ≡ all_succeed)
    → Logs w disk c
    → HoldsEvents c
    → total ≡ suc w.current_segment_id
    → i + n ≡ total
    → Follows os disk (paths_from 0 total) i (segments_from c i n)
Follows-segments_from os w disk c total i zero good l a t e =
    subst (λ k. get_elem? (paths_from 0 total) k ≡ none) (omega arith) (get_elem?-paths_end 0 total)
Follows-segments_from os w disk c total i (suc n) good l a t e =
    let (f, found, s) = l.held i (omega arith) in
    (
      record {
        id = i;
        file = f;
        path = get_elem?-paths_from 0 total i (omega arith) ∙ ap some (omega arith);
        found = found;
        good = good i;
        small = omega (arith, s.sized, l.most);
        sound = s.sound;
        records = Slots-slots f 64 (c i) s.records;
        room = omega (arith, s.room, s.sized, length-slots (c i));
        widths = a i;
      },
      Follows-segments_from os w disk c total (i + 1) n good l a t (omega arith),
    )
