-- ===== src/Rbd/Read.antt =====
-- rbd_obj_advance_read of kernel-modules/src/rbd/rbd.c: an object is read, and where it does not
-- exist, the parent image; what neither has is filled with zeros. The data buffer of the request is a
-- list of bytes; the object map, the OSDs and the parent image answer from outside.
pub mod Fills
use xcp_ng_ceph_rbd.Base.{
  ℕ, zero, suc, ◌+◌, ◌-◌, ◌*◌, Bool, true, false, List, [], ◌∷◌, ◌++◌, length, take, drop,
  replicate, ltb, leb, ◌==◌, if◌then◌else◌, ℤ, pos, negsuc, u32,
}
use xcp_ng_ceph_rbd.Crush.Outcome.{Outcome, ok, fault, stuck, ◌>>=◌}
use xcp_ng_ceph_rbd.Striper.Layout.{Layout}
use xcp_ng_ceph_rbd.Striper.FileExtents.{FileExtent}
use xcp_ng_ceph_rbd.Rbd.Pending.{is_zero}
use xcp_ng_ceph_rbd.Rbd.Extents.{file_extents_bytes, calc_img_extents}

-- enum rbd_obj_read_state.
pub data ReadState : Type 0 where
  start object parent : ReadState

-- struct rbd_obj_request, as far as a read uses it.
pub record ReadReq : Type 0 where
  pub state : ReadState
  pub may_exist : Bool
  pub objno : ℕ
  pub off : ℕ
  pub len : ℕ
  pub img_extents : List FileExtent
  pub buf : List ℕ

-- What the image is like and what the calls return: rbd_object_map_may_exist, rbd_obj_read_object and
-- rbd_obj_read_from_parent, and whether there is memory for the extents.
pub record Calls : Type 0 where
  pub layout : Layout
  pub parent_overlap : ℕ
  pub memory : Bool
  pub may_exist : Bool
  pub read_object : ℤ
  pub read_parent : ℤ

-- -ENOENT.
abbrev pub enoent : ℤ
enoent = negsuc 1

abbrev pub Step : Type 0
Step = Outcome (Bool × ReadReq × ℤ)

-- rbd_obj_zero_range on the buffer.
abbrev pub zeroed : List ℕ → (off bytes : ℕ) → List ℕ
zeroed buf off bytes = take off buf ++ (replicate bytes 0 ++ drop (off + bytes) buf)

abbrev pub zero_range : (off bytes : ℕ) → ReadReq → ReadReq
zero_range off bytes req = record req { buf = zeroed req.buf off bytes }

-- -ENOENT means a hole, and a short read that zeros follow.
pub finish_object : ReadReq → ℤ → Step
finish_object req (pos n) =
    if ltb n req.len
    then ok (true, zero_range n (req.len - n) req, pos 0)
    else if n == req.len
    then ok (true, req, pos 0)
    else fault
finish_object req (negsuc (suc zero)) = ok (true, zero_range 0 req.len req, pos 0)
finish_object req (negsuc zero) = ok (true, req, negsuc zero)
finish_object req (negsuc (suc (suc n))) = ok (true, req, negsuc (suc (suc n)))

-- The parent image is asked if it has a part of the object.
abbrev pub ask_parent : Calls → ReadReq → List FileExtent → Step
ask_parent calls req [] = finish_object (record req { img_extents = [] }) enoent
ask_parent calls req (fe ∷ rest) =
    if is_zero calls.read_parent
    then ok (false, record req { state = parent; img_extents = fe ∷ rest }, enoent)
    else ok (true, record req { img_extents = fe ∷ rest }, calls.read_parent)

abbrev pub with_extents : Calls → ReadReq → ℤ × List FileExtent → Step
with_extents calls req (ret, fes) =
    if is_zero ret then ask_parent calls req fes else ok (true, req, ret)

pub find_hole : Calls → ReadReq → Step
find_hole calls req =
    if calls.parent_overlap == 0
    then finish_object req enoent
    else (calc_img_extents calls.layout calls.memory calls.parent_overlap req.objno req.off req.len
        >>= with_extents calls req)

pub object_read : Calls → ReadReq → ℤ → Step
object_read calls req (pos n) = finish_object req (pos n)
object_read calls req (negsuc (suc zero)) = find_hole calls req
object_read calls req (negsuc zero) = finish_object req (negsuc zero)
object_read calls req (negsuc (suc (suc n))) = finish_object req (negsuc (suc (suc n)))

-- The parent image is read up to the overlap only.
pub parent_read : ReadReq → ℤ → Step
parent_read req result =
    let obj_overlap = u32 (file_extents_bytes req.img_extents) in
    if is_zero result
    then if ltb obj_overlap req.len
      then ok (true, zero_range obj_overlap (req.len - obj_overlap) req, result)
      else ok (true, req, result)
    else ok (true, req, result)

abbrev pub ask_object : Calls → ReadReq → Step
ask_object calls req =
    if is_zero calls.read_object
    then ok (false, record req { state = object }, pos 0)
    else ok (true, req, calls.read_object)

pub start_read : Calls → ReadReq → ℤ → Step
start_read calls req result =
    if is_zero result
    then if calls.may_exist
      then ask_object calls (record req { may_exist = true })
      else object_read calls (record req { state = object }) enoent
    else fault

-- rbd_obj_advance_read: whether the request has ended, and `*result`.
abbrev pub advance_from : ReadState → Calls → ReadReq → ℤ → Step
advance_from start calls req result = start_read calls req result
advance_from object calls req result = object_read calls req result
advance_from parent calls req result = parent_read req result

pub advance_read : Calls → ReadReq → ℤ → Step
advance_read calls req result = advance_from req.state calls req result

-- What an OSD or the parent image answers: an error, or bytes for the front of the buffer. The result
-- of a read of an object is their number, and of a read of the parent image 0.
pub data Answer : Type 0 where
  failed : (n : ℕ) → Answer
  got : List ℕ → Answer

abbrev pub filled : List ℕ → List ℕ → List ℕ
filled data_in buf = data_in ++ drop (length data_in) buf

abbrev pub receive : Answer → (ℕ → ℕ) → ReadReq → ReadReq × ℤ
receive (failed n) result req = (req, negsuc n)
receive (got bytes) result req =
    (record req { buf = filled bytes req.buf }, pos (result (length bytes)))

-- A request from its start to its end.
abbrev pub then_go : (ReadReq → Step) → Bool × ReadReq × ℤ → Step
then_go next (true, req, result) = ok (true, req, result)
then_go next (false, req, result) = next req

abbrev pub resume : Calls → ReadReq × ℤ → Step
resume calls (req, result) = advance_read calls req result

-- An answer of an OSD only comes where one was asked.
abbrev pub from_object : ReadState → Calls → (of_object of_parent : Answer) → ReadReq → Step
from_object start calls of_object of_parent req = fault
from_object object calls of_object of_parent req =
    resume calls (receive of_object (λ n. n) req)
    >>= then_go (λ req'. resume calls (receive of_parent (λ n. 0) req'))
from_object parent calls of_object of_parent req = resume calls (receive of_parent (λ n. 0) req)

pub read_all : Calls → (of_object of_parent : Answer) → ReadReq → Step
read_all calls of_object of_parent req =
    advance_read calls req (pos 0)
    >>= then_go (λ req'. from_object req'.state calls of_object of_parent req')
