-- ===== src/Transport/Scp/RoundTrip.antt =====
-- What `UploadSCP` has written is received by `DownloadSCP` as the same tree.
use mathlib.Core.Path.{subst}
use channel_term.Prelude.{
  ℕ, suc, ◌+◌, ◌%◌, ◌≤◌, ◌<◌, ◌≡◌, refl, sym, ap, ◌∙◌, arith, Bool, true, false, ◌&&◌, not, none,
  some, List, [], ◌∷◌, ◌++◌, length, take, Bytes, ◌||◌, same_bytes, same_bytes_iff, if◌then◌else◌,
}
use channel_term.Transport.Scp.Records.{Header, bad_root}
use channel_term.Transport.Scp.Receive.{
  Entry, Client, Transfer, goes, ends, fails, path_of, admit, check_root, continue, rounds, begin,
  receive_scp,
}
use channel_term.Transport.Scp.Contained.{count_files}
use channel_term.Transport.Scp.Download.{Over, receive_scp-Over}
use channel_term.Transport.Scp.Upload.{
  Node, Nodes, file, dir, special, link, unreadable, nil, cons, node_name, Caller, Sent, upload_scp,
}
use channel_term.Transport.Scp.Reads.{Willing, between, header, Readable, record_read}
use channel_term.Transport.Scp.Admits.{admit-file, admit-dir, end_read}
use channel_term.Transport.Scp.Wire.{wire, wire_all, Sendable, AllSendable}
use channel_term.Transport.Scp.Sends.{upload_scp-wire}
use channel_term.Transport.Scp.Admits.{then_ok-next}
use channel_term.Transport.Scp.Wire.{files_of, files_of_all}
use channel_term.Transport.Scp.Trees.{
  entries, entries_all, Portable, AllPortable, Distinct, Room, entries_all-Room, Room-Free, Goes,
  here, next, Goes-trans, Goes-ends,
}

-- Where a name may come: the root under the name that was asked for, or any in a directory.
abbrev Enters : Client → List Bytes → Bool → Bytes → Type 0
Enters c [] root_seen name = (root_seen ≡ false) × (name ≡ c.expected)
Enters c (m ∷ ns) root_seen name = root_seen ≡ true

enters_root :
    (root_seen : Bool) (name expected : Bytes)
    → root_seen ≡ false
    → name ≡ expected
    → (root_seen || not (same_bytes name expected)) ≡ false
enters_root root_seen name expected fresh named =
    ground (arith, fresh, (same_bytes_iff name expected).1 named)

check_root-admit :
    (c : Client) (is_dir : Bool) (h : Header) (input : Bytes) (ns : List Bytes) (es : List Entry)
    (root_seen : Bool) (w k : ℕ)
    → Enters c ns root_seen h.name
    → check_root c is_dir h (between input ns es root_seen w k) ns
      ≡ admit c is_dir h (between input ns es true w k)
check_root-admit c is_dir h input [] es root_seen w k (fresh, named) =
    ap
      (λ b.
        if b
        then fails (between input [] es root_seen w k) bad_root
        else admit c is_dir h (between input [] es true w k))
      (enters_root root_seen h.name c.expected fresh named)
check_root-admit c is_dir h input (m ∷ ns) es root_seen w k seen =
    ap (λ b. admit c is_dir h (between input (m ∷ ns) es b w k)) seen

-- What has been received once the records of a tree have been read.
abbrev Receives : Client → List Bytes → Bool → List Entry → (Bytes → Bytes) → List Entry → Type 0
Receives c ns root_seen es records es' =
    (rest : Bytes) (w k : ℕ)
    → (w' : ℕ) × (k' : ℕ) × Goes c (between (records rest) ns es root_seen w k)
        (between rest ns es' true w' k')

mode_twice : (mode : ℕ) → mode % 512 % 512 ≡ mode % 512
mode_twice mode = omega arith

-- The entry of a header that `UploadSCP` has written.
sent : Bool → ℕ → ℕ → List Bytes → Entry
sent is_dir permissions size path = record {
  path = path_of path;
  size = size;
  permissions = permissions;
  is_dir = is_dir;
}

file-Receives :
    (c : Client) (permissions : ℕ) (name : Bytes) (size : ℕ) (content : Bytes) (ns : List Bytes)
    (es : List Entry) (root_seen : Bool)
    → Willing c
    → Readable (permissions % 512) size name
    → size ≤ length content
    → length ns < 128
    → Enters c ns root_seen name
    → Room (entries ns (file permissions name size content) es)
    → Receives c ns root_seen es
        (wire (file permissions name size content))
        (entries ns (file permissions name size content) es)
unfolding entries wire sent
file-Receives c permissions name size content ns es root_seen will fits enough deep enters room rest
      w k =
    let mode = permissions % 512 in
    (
      suc (suc w),
      suc k,
      next
          (record_read c false mode size name (take size content ++ 0 ∷ rest) ns es root_seen w k
              fits refl
            ∙ check_root-admit c false (header mode size name) (take size content ++ 0 ∷ rest) ns es
                root_seen w k enters
            ∙ admit-file c mode size name content rest ns es w k will enough
                (Room-Free ns es (sent false mode size (name ∷ ns)) deep room)
            ∙ ap
                (λ p.
                  goes (
                    between rest ns (sent false p size (name ∷ ns) ∷ es) true (suc (suc w))
                      (suc k)))
                (mode_twice permissions))
          here,
    )

dir-Receives :
    (c : Client) (permissions : ℕ) (name : Bytes) (children : Nodes) (ns : List Bytes)
    (es : List Entry) (root_seen : Bool)
    → Willing c
    → Readable (permissions % 512) 0 name
    → c.recursive ≡ true
    → length ns < 128
    → Enters c ns root_seen name
    → Room (sent true (permissions % 512) 0 (name ∷ ns) ∷ es)
    → Receives c
        (name ∷ ns)
        true
        (sent true (permissions % 512) 0 (name ∷ ns) ∷ es)
        (wire_all children)
        (entries_all (name ∷ ns) children (sent true (permissions % 512) 0 (name ∷ ns) ∷ es))
    → Receives c ns root_seen es
        (wire (dir permissions name children))
        (entries ns (dir permissions name children) es)
unfolding entries wire sent
dir-Receives c permissions name children ns es root_seen will fits recursive deep enters room inner
      rest w k =
    let mode = permissions % 512 in
    let body = wire_all children (b'E' ∷ 10 ∷ rest) in
    let e = sent true mode 0 (name ∷ ns) in
    let (w', k', goes_on) = inner (b'E' ∷ 10 ∷ rest) (suc w) k in
    (
      suc w',
      k',
      next
          (record_read c true mode 0 name body ns es root_seen w k fits
              (ap (λ b. true && not b) recursive)
            ∙ check_root-admit c true (header mode 0 name) body ns es root_seen w k enters
            ∙ admit-dir c mode name body ns es w k will (Room-Free ns es e deep room)
            ∙ ap
                (λ p.
                  goes (between body (name ∷ ns) (sent true p 0 (name ∷ ns) ∷ es) true (suc w) k))
                (mode_twice permissions))
          (Goes-trans goes_on (next (end_read c rest name ns _ w' k' will) here)),
    )

mutual
  unfolding entries wire Sendable Portable sent

  node-Receives :
      (c : Client) (node : Node) (ns : List Bytes) (es : List Entry) (root_seen : Bool)
      → Willing c
      → Sendable c.recursive node
      → Portable (length ns) node
      → Enters c ns root_seen (node_name node)
      → Room (entries ns node es)
      → Receives c ns root_seen es (wire node) (entries ns node es)
  node-Receives c (file permissions name size content) ns es root_seen will good fits enters room =
      file-Receives c permissions name size content ns es root_seen will
        (omega arith, fits.1, good.0, fits.2) good.1 fits.0 enters room
  node-Receives c (dir permissions name children) ns es root_seen will good fits enters room =
      dir-Receives c permissions name children ns es root_seen will
        (omega arith, omega arith, good.0, fits.1) good.1 fits.0 enters
        (entries_all-Room (name ∷ ns) children _ room)
        (nodes-Receive c children name ns _ will good.2 fits.2 room)
  node-Receives c (special name) ns es root_seen will good fits enters room = absurd good
  node-Receives c (link name) ns es root_seen will good fits enters room = absurd good
  node-Receives c (unreadable name) ns es root_seen will good fits enters room = absurd good

  nodes-Receive :
      (c : Client) (nodes : Nodes) (m : Bytes) (ns : List Bytes) (es : List Entry)
      → Willing c
      → AllSendable c.recursive nodes
      → AllPortable (length (m ∷ ns)) nodes
      → Room (entries_all (m ∷ ns) nodes es)
      → Receives c (m ∷ ns) true es (wire_all nodes) (entries_all (m ∷ ns) nodes es)
  nodes-Receive c nil m ns es will good fits room rest w k = (w, k, here)
  nodes-Receive c (cons node nodes) m ns es will good fits room rest w k =
      let (w', k', first) =
        node-Receives c node (m ∷ ns) es true will good.0 fits.0 refl
          (entries_all-Room (m ∷ ns) nodes _ room) (wire_all nodes rest) w k in
      let (w'', k'', others) =
        nodes-Receive c nodes m ns (entries (m ∷ ns) node es) will good.1 fits.1 room rest w' k' in
      (w'', k'', Goes-trans first others)

mutual
  unfolding entries files_of

  count_files-entries :
      (ns : List Bytes) (node : Node) (es : List Entry)
      → count_files (entries ns node es) ≡ files_of node + count_files es
  count_files-entries ns (file permissions name size content) es = omega arith
  count_files-entries ns (dir permissions name children) es =
      count_files-entries_all (name ∷ ns) children _
  count_files-entries ns (special name) es = omega arith
  count_files-entries ns (link name) es = omega arith
  count_files-entries ns (unreadable name) es = omega arith

  count_files-entries_all :
      (ns : List Bytes) (nodes : Nodes) (es : List Entry)
      → count_files (entries_all ns nodes es) ≡ files_of_all nodes + count_files es
  count_files-entries_all ns nil es = omega arith
  count_files-entries_all ns (cons node nodes) es =
      omega (
        arith,
        count_files-entries_all ns nodes (entries ns node es),
        count_files-entries ns node es,
      )

-- What a successful `uploadSCP` has written, given to `receiveSCP` on a client whose calls succeed and
-- that asks for the name of the tree in the same mode: the download succeeds too, and has delivered
-- exactly the entries of the tree, each with its path, size, permissions and kind, a directory before
-- what is in it, and has counted as many files as the upload. The tree has no two entries of one
-- path, at most 100000 entries, at most 127 directories around each, sizes below 2 ^ 63, and
-- records that fit the reader's buffer.
pub upload_scp-receive_scp :
    (u : Caller) (c : Client) (node : Node) (replies : Bytes) (s : Sent)
    → upload_scp u node replies ≡ (s, none)
    → Willing c
    → u.recursive ≡ c.recursive
    → node_name node ≡ c.expected
    → Portable 0 node
    → Distinct (entries [] node [])
    → length (entries [] node []) ≤ 100000
    → (t : Transfer) × (receive_scp c s.out ≡ some (ends t))
      × (t.received ≡ entries [] node [])
      × (t.files ≡ s.files)
unfolding receive_scp
upload_scp-receive_scp u c node replies s sent_all will mode named fits distinct few =
    let (out, files, bytes, good) = upload_scp-wire u node replies s sent_all in
    let (w, k, g) =
      node-Receives c node [] [] false will (subst (λ b. Sendable b node) mode good) fits
        (refl, named) (distinct, few) [] 1 0 in
    let t = between [] [] (entries [] node []) true w k in
    let (r, e, over) = receive_scp-Over c (wire node []) in
    let first =
      ap (continue (rounds c (suc (length (wire node [])))))
        (then_ok-next c (begin (wire node [])) goes will) in
    let same = Goes-ends (suc (length (wire node []))) g refl (sym first ∙ e) in
    let counted = (subst (Over c) same over).3 in
    (
      t,
      ap (receive_scp c) out ∙ e ∙ ap some same,
      refl,
      omega (arith, counted, count_files-entries [] node [], files),
    )
