-- ===== src/Iou/Vtable.antt =====
-- The table of functions: ielb_iou_vtsetup with `struct iel_vtable_st` and the two ways to call a
-- backend of include/iel/backends.h. A function is its name, and a call resolves to the function that it reaches.
use iel.Base.{ℕ, Option, none, some, if◌then◌else◌, ◌==◌}
use iel.Iou.{einval}

-- The functions that a backend has
pub data Func : Type 0 where
  fpr fprv fpw fpwv fr frv fw fwv sa sc sr srv sw swv etime esoon lnew ldel lrun1 lsize xfeat xreg
        xcntl xinit xtdwn :
      Func

-- The functions of src/backends/iou.c, and any other function
pub data Symbol : Type 0 where
  iou_fpr iou_fprv iou_fpw iou_fpwv ioux_r ioux_rv ioux_w ioux_wv iou_sa iou_sc iou_etime iou_esoon
        iou_lnew iou_ldel iou_lrun1 iou_lsize iou_xfeat iou_xreg iou_xcntl ioux_nop_a ioux_lnew_us :
      Symbol
  elsewhere : ℕ → Symbol

-- `struct iel_vtable_st`
pub record Vtable : Type 0 where
  pub p_fpr : Symbol
  pub p_fprv : Symbol
  pub p_fpw : Symbol
  pub p_fpwv : Symbol
  pub p_fr : Symbol
  pub p_frv : Symbol
  pub p_fw : Symbol
  pub p_fwv : Symbol
  pub p_sa : Symbol
  pub p_sc : Symbol
  pub p_sr : Symbol
  pub p_srv : Symbol
  pub p_sw : Symbol
  pub p_swv : Symbol
  pub p_etime : Symbol
  pub p_esoon : Symbol
  pub p_lnew : Symbol
  pub p_ldel : Symbol
  pub p_lrun1 : Symbol
  pub p_lsize : Symbol
  pub p_xfeat : Symbol
  pub p_xreg : Symbol
  pub p_xcntl : Symbol
  pub p_xinit : Symbol
  pub p_xtdwn : Symbol

abbrev pub ret_unsure : ℕ
ret_unsure = 2

abbrev pub ret_error : ℕ
ret_error = 255

-- `IEL_RESOLVE_CALL_` without IEL_USE_STABLE: `ielb_iou_` and the name, with the macros of
-- include/iel/backends/iou.h. The macros of lsize, xinit and xtdwn call no function.
resolve_direct : Func → Option Symbol
resolve_direct fpr = some iou_fpr
resolve_direct fprv = some iou_fprv
resolve_direct fpw = some iou_fpw
resolve_direct fpwv = some iou_fpwv
resolve_direct fr = some ioux_r
resolve_direct frv = some ioux_rv
resolve_direct fw = some ioux_w
resolve_direct fwv = some ioux_wv
resolve_direct sa = some iou_sa
resolve_direct sc = some iou_sc
resolve_direct sr = some ioux_r
resolve_direct srv = some ioux_rv
resolve_direct sw = some ioux_w
resolve_direct swv = some ioux_wv
resolve_direct etime = some iou_etime
resolve_direct esoon = some iou_esoon
resolve_direct lnew = some iou_lnew
resolve_direct ldel = some iou_ldel
resolve_direct lrun1 = some iou_lrun1
resolve_direct lsize = none
resolve_direct xfeat = some iou_xfeat
resolve_direct xreg = some iou_xreg
resolve_direct xcntl = some iou_xcntl
resolve_direct xinit = none
resolve_direct xtdwn = none

-- `IEL_RESOLVE_CALL_` with IEL_USE_STABLE: the member of the table
pub resolve_stable : Vtable → Func → Symbol
resolve_stable be_vt fpr = be_vt.p_fpr
resolve_stable be_vt fprv = be_vt.p_fprv
resolve_stable be_vt fpw = be_vt.p_fpw
resolve_stable be_vt fpwv = be_vt.p_fpwv
resolve_stable be_vt fr = be_vt.p_fr
resolve_stable be_vt frv = be_vt.p_frv
resolve_stable be_vt fw = be_vt.p_fw
resolve_stable be_vt fwv = be_vt.p_fwv
resolve_stable be_vt sa = be_vt.p_sa
resolve_stable be_vt sc = be_vt.p_sc
resolve_stable be_vt sr = be_vt.p_sr
resolve_stable be_vt srv = be_vt.p_srv
resolve_stable be_vt sw = be_vt.p_sw
resolve_stable be_vt swv = be_vt.p_swv
resolve_stable be_vt etime = be_vt.p_etime
resolve_stable be_vt esoon = be_vt.p_esoon
resolve_stable be_vt lnew = be_vt.p_lnew
resolve_stable be_vt ldel = be_vt.p_ldel
resolve_stable be_vt lrun1 = be_vt.p_lrun1
resolve_stable be_vt lsize = be_vt.p_lsize
resolve_stable be_vt xfeat = be_vt.p_xfeat
resolve_stable be_vt xreg = be_vt.p_xreg
resolve_stable be_vt xcntl = be_vt.p_xcntl
resolve_stable be_vt xinit = be_vt.p_xinit
resolve_stable be_vt xtdwn = be_vt.p_xtdwn

-- `IEL_BACKEND_FNS`, with the iterator that sets a member
set_members : Vtable → Vtable
set_members vt = record vt {
  p_fpr = iou_fpr;
  p_fprv = iou_fprv;
  p_fpw = iou_fpw;
  p_fpwv = iou_fpwv;
  p_fr = ioux_r;
  p_frv = ioux_rv;
  p_fw = ioux_w;
  p_fwv = ioux_wv;
  p_sa = iou_sa;
  p_sc = iou_sc;
  p_sr = ioux_r;
  p_srv = ioux_rv;
  p_sw = ioux_w;
  p_swv = ioux_wv;
  p_etime = iou_etime;
  p_esoon = iou_esoon;
  p_lnew = iou_lnew;
  p_ldel = iou_ldel;
  p_lrun1 = iou_lrun1;
  p_lsize = iou_lsize;
  p_xfeat = iou_xfeat;
  p_xreg = iou_xreg;
  p_xcntl = iou_xcntl;
  p_xinit = ioux_nop_a;
  p_xtdwn = ioux_nop_a;
}

-- What a call leaves: its result, `iel_errno` where it is set, and the table
pub record Setup : Type 0 where
  pub ret : ℕ
  pub errno : Option ℕ
  pub vt : Option Vtable

-- `ielb_iou_vtsetup` on Linux, where `scmode` is the answer of `prctl(PR_GET_SECCOMP)` and `disabled` is
-- SECCOMP_MODE_DISABLED
pub vtsetup : ℕ → ℕ → Option Vtable → Setup
unfolding set_members
vtsetup disabled scmode none = record { ret = ret_error; errno = some einval; vt = none }
vtsetup disabled scmode (some vt) =
    let vt = set_members vt in
    record {
      ret = ret_unsure;
      errno = none;
      vt = some (if scmode == disabled then record vt { p_lnew = ioux_lnew_us } else vt);
    }
