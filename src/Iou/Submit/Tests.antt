-- ===== src/Iou/Submit/Tests.antt =====
-- The theorems on submission at a ring that has consumed everything.
use iel.Base.{◌≡◌, refl, none, some, [], arith}
use iel.Iou.{iou_feats, flag_reqlnk}
use iel.Iou.Samples.{idle-RingInv, linux, no_entry, empty_que-Rep, idle, mem, mem-Bounded}
use iel.Iou.Submit.{submit_to_sq, sqe_of, timer_of, etime, xfeat, xcntl}
use iel.Iou.Submit.Ring.{Submitted, submit_to_sq-Submitted}
use iel.Iou.Submit.Tasks.{Etimed, etime-Etimed}

-- The features of a context, and nothing for a NULL one
features : (xfeat (some idle) 0 ≡ iou_feats) × (xfeat none 0 ≡ 0) × (xcntl idle 0 ≡ 0)
unfolding xfeat xcntl
features = (refl, refl, refl)

submit_to_sq-Submitted_example :
    Submitted
      (mem no_entry)
      idle
      []
      flag_reqlnk
      (sqe_of linux 22 3 0 4096 512 77 flag_reqlnk)
      (submit_to_sq linux (mem no_entry) idle 22 3 0 4096 512 77 flag_reqlnk)
submit_to_sq-Submitted_example =
    submit_to_sq-Submitted linux (mem no_entry) idle [] 22 3 0 4096 512 77 flag_reqlnk
      (mem-Bounded no_entry) idle-RingInv (empty_que-Rep 10 (omega arith))

etime-Etimed_example :
    Etimed linux
      (mem no_entry)
      (some 8192)
      8
      idle
      []
      0
      (timer_of 250 0 9)
      (etime linux (mem no_entry) (some 8192) 8 idle 250 0 9)
etime-Etimed_example =
    etime-Etimed linux (mem no_entry) 8 idle [] (some 8192) 250 0 9 (mem-Bounded no_entry)
      idle-RingInv (empty_que-Rep 10 (omega arith))
