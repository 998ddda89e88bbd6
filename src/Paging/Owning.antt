-- ===== src/Paging/Owning.antt =====
-- An address space whose pages are its own can be released.
use ose.Prelude.{
  ℕ, ◌+◌, ◌*◌, ◌/◌, ◌%◌, ◌≤◌, ◌<◌, ◌≡◌, ◌≢◌, inl, inr, refl, ◌∙◌, arith, true, false, ◌&&◌, List,
  has, Bool-cases, some,
}
use ose.Memory.Pages.{Frames}
use ose.Paging.{present, frame_of, entry_at}
use ose.Paging.Entries.{writable, user}
use ose.Paging.Translate.{Mapping, walk_page, translate}
use ose.Paging.Space.{HasTable, table}
use ose.Paging.Owner.{IsPage, IsOwner}
use ose.Paging.Owned.{leads, owned}
use ose.Paging.Members.{Apart, Under, owned-Under, owned-Distinct}
use ose.Paging.Release.{owned_by, Owns}

module _ (s : Frames) (free used : List ℕ) (pdt : ℕ) (o : IsOwner s free used pdt) where
  abbrev d : ℕ → ℕ
  d = entry_at s.ram pdt

  abbrev t : ℕ → ℕ → ℕ
  t j = entry_at s.ram (frame_of (entry_at s.ram pdt j))

  leads-HasTable : (j : ℕ) → leads (d j) ≡ true → HasTable s.ram pdt j
  leads-HasTable j h = (ground arith, ground arith)

  -- The frame under entry `l` of the table under entry `j` is where the page there is mapped to.
  IsPage-mapping :
      (j l : ℕ)
      → 1 ≤ j
      → j < 1024
      → l < 1024
      → leads (d j) ≡ true
      → present (t j l) ≡ true
      → (x : Mapping) × IsPage (j * 0x400000 + l * 0x1000)
        × (translate s.ram pdt (j * 0x400000 + l * 0x1000) ≡ some x)
        × (x.physical ≡ frame_of (t j l))
  IsPage-mapping j l lo hi hl lead p =
      let a = j * 0x400000 + l * 0x1000 in
      let at_j : a / 0x400000 ≡ j = omega arith in
      let at_l : a / 0x1000 % 1024 ≡ l = omega arith in
      let start : a % 0x1000 ≡ 0 = omega arith in
      let (h, k) = leads-HasTable j lead in
      (
        record {
          physical = frame_of (t j l) + a % 0x1000;
          may_write = writable (d j) && writable (t j l);
          may_access = user (d j) && user (t j l);
        },
        (omega arith, omega arith, start),
        rw (at_j, at_l) (walk_page (d j) (t j l) a h k p),
        rw start (omega arith),
      )

  owner-Apart : Apart d t
  owner-Apart = record {
    tables = λ j j' lo hi lo' hi' ne h h'.
        o.space.distinct j j' hi hi' ne (leads-HasTable j h) (leads-HasTable j' h');
    no_table = λ j l j' lo hi hl lo' hi' h p h'.
        let (x, page, e, f) = IsPage-mapping j l lo hi hl h p in
        rw f at (o.no_table (j * 0x400000 + l * 0x1000) j' x page hi' e (leads-HasTable j' h'));
    pages = λ j l j' l' lo hi hl lo' hi' hl' ne h p h' p'.
        let (x, page, e, f) = IsPage-mapping j l lo hi hl h p in
        let (x', page', e', f') = IsPage-mapping j' l' lo' hi' hl' h' p' in
        let other : j * 0x400000 + l * 0x1000 ≢ j' * 0x400000 + l' * 0x1000 =
          λ same. elim ne [ inl n ↦ n (omega arith) | inr n ↦ n (omega arith) ] in
        rw (f, f') at (o.distinct _ _ x x' page page' other e e');
  }

  -- What is under the directory is held, and is not a frame that no page and no table is in.
  Under-held : (j q : ℕ) → 1 ≤ j → j < 1024 → Under d t j q → has q used ≡ true
  Under-held j q lo hi (lead, x) = elim x [
    | inl e ↦ rw e at (o.space.tables_held j hi (leads-HasTable j lead))
    | inr (l, _, hl, p, e) ↦
        let (y, page, e', f) = IsPage-mapping j l lo hi hl lead p in
        rw (f ∙ e) at (o.held (j * 0x400000 + l * 0x1000) y page e')
  ]

  not-Under_root : (j q : ℕ) → 1 ≤ j → j < 1024 → Under d t j q → q ≢ pdt
  not-Under_root j q lo hi (lead, x) = elim x [
    | inl e ↦ rw e at (o.space.tables_apart j hi (leads-HasTable j lead))
    | inr (l, _, hl, p, e) ↦
        let (y, page, e', f) = IsPage-mapping j l lo hi hl lead p in
        rw (f ∙ e) at (o.apart (j * 0x400000 + l * 0x1000) y page e')
  ]

  not-Under_first :
      (j q : ℕ) → HasTable s.ram pdt 0 → 1 ≤ j → j < 1024 → Under d t j q → q ≢ table s.ram pdt 0
  not-Under_first j q first lo hi (lead, x) = elim x [
    | inl e ↦
        let ne : j ≢ 0 = λ z. absurd (omega arith) in
        rw e at (o.space.distinct j 0 hi (omega arith) ne (leads-HasTable j lead) first)
    | inr (l, _, hl, p, e) ↦
        let (y, page, e', f) = IsPage-mapping j l lo hi hl lead p in
        rw (f ∙ e) at (o.no_table (j * 0x400000 + l * 0x1000) 0 y page (omega arith) e' first)
  ]

  out_of_owned :
      (p : ℕ)
      → ((j q : ℕ) → 1 ≤ j → j < 1024 → Under d t j q → q ≢ p)
      → has p (owned d t 1023 1) ≡ false
  out_of_owned p never = elim (Bool-cases (has p (owned d t 1023 1))) [
    | inr e ↦ e
    | inl e ↦ let (j, lo, hi, u) = owned-Under d t 1023 1 p e in absurd (never j p lo hi u refl)
  ]

  pub owner-Owns : Owns s free used pdt
  owner-Owns = record {
    pool = o.space.pool;
    root = o.space.root;
    held = λ q h. let (j, lo, hi, u) = owned-Under d t 1023 1 q h in Under-held j q lo hi u;
    distinct = owned-Distinct d t owner-Apart 1023 1 (omega arith) (omega arith);
    apart = out_of_owned pdt not-Under_root;
  }

  -- The table under entry 0 is not released.
  pub first-apart : HasTable s.ram pdt 0 → has (table s.ram pdt 0) (owned_by s.ram pdt) ≡ false
  first-apart first = out_of_owned (table s.ram pdt 0) (λ j q. not-Under_first j q first)
