-- ===== src/Device/AtaDeviceDescriptor/Tests.antt =====
-- A disc with sectors of 2048 bytes.
use lamb_os.Base.{true, replicate}
use lamb_os.Device.AtaDeviceDescriptor.{AtaDeviceDescriptor}

abbrev disc : AtaDeviceDescriptor
disc = record {
  little_endian = true;
  firmware = replicate 9 0;
  model = replicate 41 0;
  serial = replicate 21 0;
  lba28bit_sector_count = 0;
  lba48bit_sector_count = 0;
  atapi_end_lba = 0;
  sector_size = 0;
}
