-- ===== src/Block/Io.antt =====
-- lib/xnvme_be_linux_block.c: the I/O commands on a block device of Linux.
use xnvme.Common.{Bool, true, false, ◌==◌, if◌then◌else◌, Option, none, Ret, fail, enosys}
use xnvme.Cmd.{Ctx, Payload}
use xnvme.Geo.{Geo}
use xnvme.Ramdisk.{IoOpc, io_opc, write, read, fs_write, fs_read, flush, fs_flush}
use xnvme.Psync.{Posix, psync_cmd_io}
use xnvme.Block.{Zoned, Filled, zone_mgmt_send, zone_mgmt_recv}

-- The opcodes that are passed on.
unfoldable pub by_psync : IoOpc → Bool
by_psync write = true
by_psync read = true
by_psync fs_write = true
by_psync fs_read = true
by_psync flush = true
by_psync fs_flush = true
by_psync _ = false

-- xnvme_be_linux_block_cmd_io(), with what a report of zones has written to the buffer.
unfoldable pub block_cmd_io :
    {W : Type 0} → Posix W → Zoned W → Geo → Ctx → Payload → W → Ret × Ctx × Option Filled × W
unfolding by_psync
block_cmd_io posix zoned geo c pl w =
    let (err, c', w') = psync_cmd_io posix geo.ssw c pl w in
    let (err_send, w_send) = zone_mgmt_send zoned geo c.cmd w in
    let (err_recv, filled, w_recv) = zone_mgmt_recv zoned geo c.cmd pl.nbytes w in
    if by_psync (io_opc c.cmd.opcode)
    then (err, c', none, w')
    else if c.cmd.opcode == 0x79
    then (err_send, c, none, w_send)
    else if c.cmd.opcode == 0x7A
    then (err_recv, c, filled, w_recv)
    else (fail enosys, c, none, w)
