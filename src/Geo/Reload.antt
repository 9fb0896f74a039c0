-- ===== src/Geo/Reload.antt =====
-- What `ReloadIfChanged` does to the resolver and to the open databases.
use formation_web_analytics.Base.{
  ◌≡◌, refl, inl, inr, Bool, true, false, Option, none, some, List, [], ◌∷◌, ◌++◌, Bool-cases,
  Option-cases, Bytes, arith, subst,
}
use formation_web_analytics.Geo.{FileInfo, Disk, Resolver, is_changed, reload_if_changed}

is_changed-same : (info : FileInfo) → is_changed info info ≡ false
unfolding is_changed
is_changed-same info = ground arith

-- the readers that `maxminddb.Open` adds to the open ones
abbrev pub opened_by : {Reader : Type 0} → Option Reader → List Reader
opened_by none = []
opened_by (some reader) = reader ∷ []

-- `Opens w readers`: exactly these readers are open, each as often as it stands there
module _ {Reader Address W : Type 0} (disk : Disk Reader Address W)
    (Opens : W → List Reader → Type 0)
    (open_db-Opens : (path : Bytes) (w : W) (readers : List Reader)
      → Opens w readers
      → Opens (disk.open_db path w).1 (opened_by (disk.open_db path w).0 ++ readers))
    (stat-Opens : (path : Bytes) (w : W) (readers : List Reader)
      → Opens w readers
      → Opens (disk.stat path w).1 readers)
    (close-Opens : (reader : Reader) (w : W) (before after : List Reader)
      → Opens w (before ++ reader ∷ after)
      → Opens (disk.close reader w).1 (before ++ after)) where
  -- What a reload promises. Without one the resolver is as it was. With one the file had changed, the
  -- resolver has what `maxminddb.Open` and `os.Stat` answered for its path, and the file does not count
  -- as changed again while `os.Stat` says the same. The resolver's reader is open in place of its former one.
  pub record HasReloaded (r : Resolver Reader) (others : List Reader) (w : W) (reloaded : Bool)
      (r' : Resolver Reader) (w' : W) : Type 0 where
    pub kept : reloaded ≡ false → r' ≡ r
    pub changed : reloaded ≡ true → is_changed r'.file_info r.file_info ≡ true
    pub seen : reloaded ≡ true → (disk.stat r.path w).0 ≡ some r'.file_info
    pub fresh : reloaded ≡ true → (disk.open_db r.path (disk.stat r.path w).1).0 ≡ some r'.reader
    pub same_path : r'.path ≡ r.path
    pub settled :
        reloaded ≡ true
        → (later : W) → (disk.stat r.path later).0 ≡ some r'.file_info
        → reload_if_changed disk r' later ≡ (false, none, r', (disk.stat r.path later).1)
    pub opens : Opens w' (r'.reader ∷ others)

  reload_if_changed-same :
      (r : Resolver Reader) (w : W)
      → (disk.stat r.path w).0 ≡ some r.file_info
      → reload_if_changed disk r w ≡ (false, none, r, (disk.stat r.path w).1)
  unfolding reload_if_changed
  reload_if_changed-same r w h = rw (h, is_changed-same r.file_info, reload_if_changed) refl

  -- a path that leaves the resolver alone
  unchanged :
      (r : Resolver Reader) (others : List Reader) (w w' : W)
      → Opens w' (r.reader ∷ others)
      → HasReloaded r others w false r w'
  unchanged r others w w' opens = record {
    kept = λ e. refl;
    changed = λ e. absurd (cc);
    seen = λ e. absurd (cc);
    fresh = λ e. absurd (cc);
    same_path = refl;
    settled = λ e. absurd (cc);
    opens = opens;
  }

  -- Where the resolver's database is open, `ReloadIfChanged` on every path, errors included, leaves open
  -- the database of the resolver that it leaves, and otherwise the databases that were open besides. It
  -- either leaves the resolver alone; or the file had changed, the resolver's database is now the one
  -- that was opened at its path after `os.Stat`, the former one is closed, what `os.Stat` said is kept,
  -- and it does not reload again until `os.Stat` says something else. Of the disk it is asked that opening
  -- a database adds it to the open ones, closing an open one takes it from them and `os.Stat` leaves them alone.
  pub reload_if_changed-HasReloaded :
      (r : Resolver Reader) (others : List Reader) (w : W)
      → Opens w (r.reader ∷ others)
      → let (reloaded, error, r', w') = reload_if_changed disk r w in
        HasReloaded r others w reloaded r' w'
  unfolding reload_if_changed
  reload_if_changed-HasReloaded r others w held =
      let (info, w₁) = disk.stat r.path w in
      let (reader, w₂) = disk.open_db r.path w₁ in
      let looked = stat-Opens r.path w (r.reader ∷ others) held in
      let opened = open_db-Opens r.path w₁ (r.reader ∷ others) looked in
      elim (Option-cases info) [
        | inl gone ↦ rw (gone, reload_if_changed) (unchanged r others w w₁ looked)
        | inr (file_info, found) ↦ elim (Bool-cases (is_changed file_info r.file_info)) [
          | inr same ↦ rw (found, same, reload_if_changed) (unchanged r others w w₁ looked)
          | inl other ↦ elim (Option-cases reader) [
            | inl unread ↦
                let left = subst (λ o. Opens w₂ (opened_by o ++ r.reader ∷ others)) unread opened in
                rw (found, other, unread, reload_if_changed) (unchanged r others w w₂ left)
            | inr (new, read) ↦
                let both = subst (λ o. Opens w₂ (opened_by o ++ r.reader ∷ others)) read opened in
                let replaced : Resolver Reader = record {
                  reader = new;
                  path = r.path;
                  file_info = file_info;
                } in
                let settled = reload_if_changed-same replaced in
                let left = close-Opens r.reader w₂ (new ∷ []) others both in
                rw (found, other, read, reload_if_changed)
                  (record {
                    kept = λ e. absurd (cc);
                    changed = λ e. other;
                    seen = λ e. found;
                    fresh = λ e. read;
                    same_path = refl;
                    settled = λ e. settled;
                    opens = left;
                  })
          ]
        ]
      ]
