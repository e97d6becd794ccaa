-- ===== src/Transport/Scp/Sends.antt =====
-- What `uploadSCP` does with a tree: if there is no error, its records are written, and its files and
-- their bytes are counted.
use mathlib.Core.List.{append_assoc, append-nil}
use mathlib.Core.Path.{subst}
use channel_term.Prelude.{
  ℕ, suc, ◌+◌, ◌%◌, ◌≤◌, ◌≡◌, refl, sym, ap, ◌∙◌, arith, true, false, ◌&&◌, not, none, [], ◌∷◌,
  ◌++◌, leb, length, take, Bytes,
}
use channel_term.Transport.Scp.Names.{valid_file_name}
use channel_term.Transport.Scp.Records.{
  too_deep, unsafe_name, not_regular, not_recursive, receive_failed, verify_failed, cut_short,
}
use channel_term.Transport.Scp.Upload.{
  Node, Nodes, file, dir, special, link, unreadable, nil, cons, node_name, Caller, Sent, Sending,
  and_then, get_ack, check, write, header_text, file_line, dir_line, end_line, copy_payload,
  count_sent, send_file, end_dir, check_depth, begin_entry, is_link, send, send_all, upload_scp,
}
use channel_term.Transport.Scp.Wire.{
  wire, wire_all, files_of, files_of_all, bytes_of, bytes_of_all, Sendable, AllSendable, Does, same,
  Does-then, Does-adjust, Does-after, Does-write, check-Does, get_ack-Does, copy_payload-Does,
  count_sent-Does,
}

check_depth-Does :
    (c : Caller) (depth : ℕ) (s : Sent) → Does s same 0 0 Unit (check_depth c depth s)
check_depth-Does c depth s =
    Does-after s same 0 0 _ Unit (check (not (c.cancelled s.entries)) cut_short counted) _
      (check-Does (not (c.cancelled s.entries)) cut_short counted)
      λ s _.
        Does-adjust s same same 0 0 0 0 _ Unit (check (leb depth 128) too_deep s)
          (check-Does (leb depth 128) too_deep s) (λ rest. refl) refl refl (λ p. tt)
  where
    counted : Sent
    counted = record s { entries = suc s.entries }

begin_entry-Does :
    (c : Caller) (depth : ℕ) (name : Bytes) (s : Sent)
    → Does s same 0 0 (valid_file_name name ≡ true) (begin_entry c depth name s)
begin_entry-Does c depth name s =
    Does-after s same 0 0 Unit _ (check_depth c depth s) (check (valid_file_name name) unsafe_name)
      (check_depth-Does c depth s) (λ s _. check-Does (valid_file_name name) unsafe_name s)

-- What comes after the payload of a file.
tail_file : Caller → Sent → Sending
tail_file c s =
    and_then (write c (0 ∷ []) s) λ s.
      and_then (get_ack s) λ s. and_then (check (c.verify s.entries) verify_failed s) count_sent

tail_file-Does : (c : Caller) (s : Sent) → Does s (λ rest. 0 ∷ rest) 1 0 Unit (tail_file c s)
unfolding tail_file
tail_file-Does c s = Does-write c (0 ∷ []) s same 1 0 Unit _ λ s.
    Does-after s same 1 0 Unit Unit (get_ack s) _ (get_ack-Does s) λ s _.
      Does-after s same 1 0 _ Unit (check (c.verify s.entries) verify_failed s) count_sent
        (check-Does (c.verify s.entries) verify_failed s) (λ s _. count_sent-Does s)

send_file-Does :
    (c : Caller) (permissions : ℕ) (name : Bytes) (size : ℕ) (content : Bytes) (s : Sent)
    → Does s
        (λ rest. b'C' ∷ (header_text permissions size name ++ 10 ∷ (take size content ++ 0 ∷ rest)))
        1
        size
        (size ≤ length content)
        (send_file c permissions name size content s)
unfolding tail_file
send_file-Does c permissions name size content s =
    Does-adjust s (λ rest. line ++ payload rest) _ 1 size 1 size Fits Fits
      (send_file c permissions name size content s)
      (Does-write c line s payload 1 size Fits _ λ s.
        Does-after s payload 1 size Unit Fits (get_ack s) _ (get_ack-Does s) λ s _.
          Does-after s payload 1 size _ Fits (check (c.progress s.entries) receive_failed s) _
            (check-Does (c.progress s.entries) receive_failed s) (λ s _. paid s))
      (λ rest.
        ap (◌∷◌ b'C') (append_assoc (header_text permissions size name) (10 ∷ []) (payload rest)))
      refl refl (λ p. p)
  where
    Fits : Type 0
    Fits = size ≤ length content

    line : Bytes
    line = file_line permissions size name

    payload : Bytes → Bytes
    payload rest = take size content ++ 0 ∷ rest

    paid :
        (s : Sent)
        → Does s payload 1 size Fits (and_then (copy_payload c size content s) (tail_file c))
    paid s =
        Does-adjust s payload payload (0 + 1) (size + 0) 1 size Fits Fits
          (and_then (copy_payload c size content s) (tail_file c))
          (Does-then s (λ rest. take size content ++ rest) (λ rest. 0 ∷ rest) 0 size 1 0 Fits Fits
            (copy_payload c size content s) (tail_file c) (copy_payload-Does c size content s)
            (λ s fits.
              Does-adjust s _ (λ rest. 0 ∷ rest) 1 0 1 0 Unit Fits (tail_file c s)
                (tail_file-Does c s) (λ rest. refl) refl refl (λ _. fits)))
          (λ rest. refl) refl (omega arith) (λ p. p)

-- A directory, from its record on, around what is done with its entries.
send_dir-Does :
    (c : Caller) (permissions : ℕ) (name : Bytes) (inner : Bytes → Bytes) (files bytes : ℕ)
    (Q : Type 0) (s : Sent) (children : Sent → Sending)
    → ((s' : Sent) → Does s' inner files bytes Q (children s'))
    → Does s
        (λ rest. b'D' ∷ (header_text permissions 0 name ++ 10 ∷ inner (b'E' ∷ 10 ∷ rest)))
        files
        bytes
        Q
        (and_then
          (write c (dir_line permissions name) s)
          λ s. and_then (get_ack s) λ s. and_then (children s) (end_dir c))
send_dir-Does c permissions name inner files bytes Q s children more =
    Does-adjust s (λ rest. line ++ body rest) _ files bytes files bytes Q Q
      (and_then (write c line s) λ s. and_then (get_ack s) λ s. and_then (children s) (end_dir c))
      (Does-write c line s body files bytes Q _
        λ s. Does-after s body files bytes Unit Q (get_ack s) _ (get_ack-Does s) (λ s _. inside s))
      (λ rest. ap (◌∷◌ b'D') (append_assoc (header_text permissions 0 name) (10 ∷ []) (body rest)))
      refl refl (λ q. q)
  where
    line : Bytes
    line = dir_line permissions name

    body : Bytes → Bytes
    body rest = inner (b'E' ∷ 10 ∷ rest)

    inside : (s : Sent) → Does s body files bytes Q (and_then (children s) (end_dir c))
    inside s =
        Does-adjust s body body (files + 0) (bytes + 0) files bytes Q Q
          (and_then (children s) (end_dir c))
          (Does-then s inner (λ rest. b'E' ∷ 10 ∷ rest) files bytes 0 0 Q Q (children s) (end_dir c)
            (more s)
            (λ s q.
              Does-adjust s (λ rest. b'E' ∷ 10 ∷ rest) (λ rest. b'E' ∷ 10 ∷ rest) 0 0 0 0 Unit Q
                (end_dir c s) (Does-write c end_line s same 0 0 Unit get_ack get_ack-Does)
                (λ rest. refl) refl refl (λ _. q)))
          (λ rest. refl) (omega arith) (omega arith) (λ q. q)

mutual
  unfolding send wire files_of bytes_of Sendable

  send-Does :
      (c : Caller) (depth : ℕ) (node : Node) (s : Sent)
      → Does s
          (wire node)
          (files_of node)
          (bytes_of node)
          (Sendable c.recursive node)
          (send c depth node s)
  send-Does c depth (file permissions name size content) s =
      Does-after s (wire (file permissions name size content)) 1 size _ _
        (begin_entry c depth name s) (send_file c (permissions % 512) name size content)
        (begin_entry-Does c depth name s)
        λ s v.
          Does-adjust s (wire (file permissions name size content))
            (wire (file permissions name size content)) 1 size 1 size _ _
            (send_file c (permissions % 512) name size content s)
            (send_file-Does c (permissions % 512) name size content s) (λ rest. refl) refl refl
            (λ fits. (v, fits))
  send-Does c depth (special name) s =
      Does-after s same 0 0 _ ⊥ (begin_entry c depth name s) (check false not_regular)
        (begin_entry-Does c depth name s) (λ s _. tt)
  send-Does c depth (link name) s =
      Does-after s same 0 0 Unit ⊥ (check_depth c depth s) (check false cut_short)
        (check_depth-Does c depth s) (λ s _. tt)
  send-Does c depth (unreadable name) s =
      Does-after s same 0 0 Unit ⊥ (check_depth c depth s) (check false cut_short)
        (check_depth-Does c depth s) (λ s _. tt)
  send-Does c depth (dir permissions name children) s =
      let w : Bytes → Bytes = wire (dir permissions name children) in
      let files = files_of_all children in
      let bytes = bytes_of_all children in
      let Good : Type 0 = Sendable c.recursive (dir permissions name children) in
      Does-after s w files bytes _ Good (begin_entry c depth name s) _
        (begin_entry-Does c depth name s)
        λ s v.
          Does-after s w files bytes _ Good (check c.recursive not_recursive s) _
            (check-Does c.recursive not_recursive s)
            λ s r.
              send_dir-Does c (permissions % 512) name (wire_all children) files bytes Good s
                (send_all c (suc depth) children)
                λ s.
                  Does-adjust s (wire_all children) (wire_all children) files bytes files bytes _
                    Good (send_all c (suc depth) children s)
                    (send_all-Does c (suc depth) children s) (λ rest. refl) refl refl
                    (λ all. (v, r, all))

  send_all-Does :
      (c : Caller) (depth : ℕ) (nodes : Nodes) (s : Sent)
      → Does s
          (wire_all nodes)
          (files_of_all nodes)
          (bytes_of_all nodes)
          (AllSendable c.recursive nodes)
          (send_all c depth nodes s)
  send_all-Does c depth nil s = ((λ rest. refl, omega arith, omega arith), tt)
  send_all-Does c depth (cons node nodes) s =
      Does-after s (wire_all (cons node nodes)) (files_of node + files_of_all nodes)
        (bytes_of node + bytes_of_all nodes) _ _ _ _
        (check-Does (not (is_link node) && valid_file_name (node_name node)) unsafe_name s)
        λ s _.
          Does-then s (wire node) (wire_all nodes) (files_of node) (bytes_of node)
            (files_of_all nodes) (bytes_of_all nodes) _ _ (send c depth node s)
            (send_all c depth nodes) (send-Does c depth node s)
            λ s good.
              Does-adjust s (wire_all nodes) (wire_all nodes) (files_of_all nodes)
                (bytes_of_all nodes) (files_of_all nodes) (bytes_of_all nodes) _ _
                (send_all c depth nodes s) (send_all-Does c depth nodes s) (λ rest. refl) refl refl
                (λ all. (good, all))

-- When `uploadSCP` succeeds it has written exactly the records of the tree, in order, with the payload
-- of each file, and has counted its files and their bytes. The tree then has valid names only, no
-- symbolic link or special file, files as long as they were said to be, and directories only in a
-- recursive transfer.
pub upload_scp-wire :
    (c : Caller) (node : Node) (replies : Bytes) (s : Sent)
    → upload_scp c node replies ≡ (s, none)
    → (s.out ≡ wire node [])
      × (s.files ≡ files_of node)
      × (s.total_bytes ≡ bytes_of node)
      × Sendable c.recursive node
unfolding upload_scp
upload_scp-wire c node replies s h =
    let ((out, files, bytes), good) =
      subst (Does start (wire node) (files_of node) (bytes_of node) (Sendable c.recursive node)) h (
        Does-after start (wire node) (files_of node) (bytes_of node) Unit _ (get_ack start)
          (send c 0 node) (get_ack-Does start) (λ s _. send-Does c 0 node s)) in
    (sym (append-nil s.out) ∙ out [], omega (arith, files), omega (arith, bytes), good)
  where
    start : Sent
    start = record {
      out = [];
      replies = replies;
      files = 0;
      total_bytes = 0;
      writings = 0;
      entries = 0;
    }
